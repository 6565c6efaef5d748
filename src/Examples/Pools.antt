-- ===== src/Examples/Pools.antt =====
-- The transfer pool, batches and concatenated files at concrete inputs.
use rohmu.Util.Batches.{rejoin, Batched, batched_lem}
use rohmu.TransferPool.Ages.{Serves, get-Serves}
use rohmu.Util.Counts.{
  perform_all, Call, perform, readline_call, given, sees, seek_call, bytes_read-given, next_call,
}
use rohmu.Util.{
  progress_readline, count, progress_seek, seeked, progress_next, total_length, RawStream, batched,
  BinaryFile, read, positive, new_concatenation,
}
use rohmu.Util.Concat.{contents_of, contents, concatenation_read, concatenation_read_all}
use rohmu.TransferPool.Exclusive.{exclusive}
use rohmu.TransferPool.Moves.{held, lent}
use rohmu.TransferPool.Users.{
  Event, run, start, acquire, step, enter, begin_return, with_handle, reclaim_item, finish_return,
  leave, alone, with_body, holders_step, at_holder, begin_step, begin_with, reclaim_step,
  reclaim_with, finish_step, finish_with, leave_at, test_at, is_idle,
}
use rohmu.TransferPool.Weights.{pooled, in_cache, in_heap, counts}
use rohmu.Base.{
  lookup, insert, List, ◌≡◌, Bytes, ℕ, false, ok, ◌∷◌, if◌then◌else◌, ◌+◌, [], pos, ◌==◌, err, take,
  negsuc, ◌≤◌, value_error, none, drop, true, ◌<◌, length, os_error, arith, refl, keep_values,
  sum_values,
}
use rohmu.TransferPool.{
  get_transfer, create, create_with, found_or_create, cache_get, shared_get, new_cache, pop,
  Factory, get, get_from, enter_transfer, plain_get, prune_expired, is_expired, age, heappush,
  reclaim, mark_done, leave_transfer, put, put_in, plain_put, cache_put, prune_expired_caches,
  cache_is_expired,
}

-- Configurations are numbers: the even ones make a transfer that is not thread safe.
abbrev factory : Factory ℕ
factory = record {
  cache_key = λ config. if config == 0 then "a" else "b";
  get_transfer = λ config. ok (config == 1);
}

-- Two handles, of which one is returned, while a block is running, and what is got and left afterwards
abbrev pool_events : List (Event ℕ)
pool_events =
    acquire 10 0
    ∷ acquire 11 0
    ∷ enter 11 0
    ∷ begin_return 1
    ∷ reclaim_item 12 1
    ∷ acquire 13 0
    ∷ finish_return 2
    ∷ begin_return 2
    ∷ leave 14 0
    ∷ []

exclusive_example :
    pooled 0 (run factory pool_events (start factory 100 50)).pool
      + held 0 (run factory pool_events (start factory 100 50)).holders
      + lent 0 (run factory pool_events (start factory 100 50)).bodies
    ≤ 1
unfolding alone step get_transfer enter_transfer get get_from create create_with found_or_create
    cache_get plain_get shared_get new_cache pop prune_expired is_expired age heappush lookup insert
    keep_values with_handle with_body holders_step at_holder begin_step begin_with reclaim_step
    reclaim_with reclaim mark_done finish_step finish_with leave_at leave_transfer put put_in
    plain_put cache_put prune_expired_caches cache_is_expired test_at is_idle run
exclusive_example =
    exclusive factory pool_events 100 50 0
      (refl, (refl, (refl, (refl, (refl, (refl, (refl, (refl, (refl, tt)))))))))

-- Two threads that both find the handle not returned put its item back twice.
abbrev returns_of_two : List (Event ℕ)
returns_of_two =
    acquire 10 0 ∷ begin_return 0 ∷ begin_return 0 ∷ reclaim_item 11 0 ∷ reclaim_item 12 0 ∷ []

pooled_twice : pooled 0 (run factory returns_of_two (start factory 100 50)).pool ≡ 2
unfolding step get_transfer enter_transfer get get_from create create_with found_or_create cache_get
    plain_get shared_get new_cache pop prune_expired is_expired age heappush lookup insert
    keep_values with_handle with_body holders_step at_holder begin_step begin_with reclaim_step
    reclaim_with reclaim mark_done finish_step finish_with leave_at leave_transfer put put_in
    plain_put cache_put prune_expired_caches cache_is_expired run sum_values in_cache in_heap counts
pooled_twice = refl

get-Serves_example : Serves 15 "b" (record {
  create_time = 10;
  cache_key = "b";
  transfer = record { id = 0; is_thread_safe = true };
  max_age = 50;
})
unfolding run step get get_from get_transfer with_handle create create_with found_or_create
    cache_get shared_get new_cache pop lookup insert
get-Serves_example =
    get-Serves factory (acquire 10 1 ∷ []) 100 50 15 1
      (record {
        create_time = 10;
        cache_key = "b";
        transfer = record { id = 0; is_thread_safe = true };
        max_age = 50;
      })
      refl

abbrev four : List ℕ
four = 1 ∷ 2 ∷ 3 ∷ 4 ∷ []

batched_lem_example :
    (◌≡◌ {A = ℕ} 3 0 → batched four 3 ≡ err value_error)
    × (0 < 3 → (bs : List (List ℕ)) × (batched four 3 ≡ ok bs) × (rejoin bs ≡ four) × Batched 3 bs)
batched_lem_example = batched_lem four 3

abbrev file : Bytes → BinaryFile
file bytes = record { left = bytes; closed = false }

abbrev files : List BinaryFile
files = file (1 ∷ 2 ∷ []) ∷ file [] ∷ file (3 ∷ 4 ∷ []) ∷ []

concatenation_read_example :
    ((read (pos 3) (new_concatenation files)).0 ≡ ok (1 ∷ 2 ∷ 3 ∷ []))
    × (contents (read (pos 3) (new_concatenation files)).1 ≡ 4 ∷ [])
unfolding contents_of
concatenation_read_example = concatenation_read 3 files (omega arith)

concatenation_read_all_example :
    let r = read (pos 0) (new_concatenation files) in
    (r.0 ≡ ok (1 ∷ 2 ∷ 3 ∷ 4 ∷ []))
    × (r.1.iter_files ≡ [])
    × (r.1.current_file ≡ none)
    × (length r.1.closed_files ≡ 3)
unfolding contents_of positive
concatenation_read_all_example = concatenation_read_all (pos 0) files refl

-- A file under a counting wrapper: `seek` goes to the start, and reading beyond the end raises.
abbrev raw : RawStream Bytes
raw = record {
  raw_read = λ n s. (ok s, []);
  raw_readline = λ n s. (ok (take 2 s), drop 2 s);
  raw_readlines = λ n s. (ok (s ∷ []), []);
  raw_next = λ s. (err os_error, s);
  raw_seek = λ offset whence s. (ok 0, 1 ∷ 2 ∷ 3 ∷ []);
}

abbrev calls : List Call
calls = readline_call (negsuc 0) ∷ seek_call (pos 0) 0 ∷ readline_call (negsuc 0) ∷ next_call ∷ []

bytes_read-given_example :
    (perform_all raw calls (record { raw_stream = 9 ∷ []; bytes_read = 7 })).1.bytes_read ≡ 2
unfolding perform_all perform given sees progress_readline count progress_seek seeked progress_next
    total_length
bytes_read-given_example =
    bytes_read-given raw calls (record { raw_stream = 9 ∷ []; bytes_read = 7 })
