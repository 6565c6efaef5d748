-- ===== src/Examples/Watches.antt =====
-- Event buffers at concrete inputs.
use rohmu.Inotify.Moves.{create_event-moved}
use rohmu.Base.{◌∷◌, [], pos, ◌≡◌, negsuc, ok, ◌>>=◌, arith, refl}
use rohmu.Inotify.{
  signed, Watcher, join_path, rstrip_nul, path_of, parse_inotify_buffer, int_eq, forget_cookie,
  create_event, moved,
}
use rohmu.Inotify.Buffers.{Raw, layouts, parse_inotify_buffer-layouts}

abbrev created_file : Raw
created_file = record { descriptor = 1; mask = 8; cookie = 0; name = 97 ∷ 98 ∷ []; padding = 2 }

abbrev overflow : Raw
overflow = record { descriptor = 4294967295; mask = 16384; cookie = 0; name = []; padding = 0 }

parse_inotify_buffer-layouts_example :
    parse_inotify_buffer (layouts (created_file ∷ overflow ∷ []))
    ≡ record { wd = pos 1; mask = 8; cookie = 0; name = 97 ∷ 98 ∷ [] }
      ∷ record { wd = negsuc 0; mask = 16384; cookie = 0; name = [] }
      ∷ []
unfolding signed rstrip_nul
parse_inotify_buffer-layouts_example = parse_inotify_buffer-layouts (created_file ∷ overflow ∷ []) (
  (omega arith, omega arith, omega arith, omega arith, refl),
  ((omega arith, omega arith, omega arith, omega arith, refl), tt),
)

abbrev watcher : Watcher
watcher = record {
  watch_to_path = (pos 1, 47 ∷ 97 ∷ []) ∷ (pos 2, 47 ∷ 98 ∷ []) ∷ [];
  cookies = [];
  queue = [];
  removed = [];
}

create_event-moved_example :
    (create_event ok (record { wd = pos 1; mask = 64; cookie = 5; name = 99 ∷ [] }) >>= λ _.
    create_event ok (record { wd = pos 2; mask = 128; cookie = 5; name = 100 ∷ [] }))
      watcher
    ≡ (
      ok tt,
      record watcher {
        queue = moved (47 ∷ 98 ∷ 47 ∷ 100 ∷ []) (47 ∷ 97 ∷ 47 ∷ 99 ∷ []) (47 ∷ 98 ∷ []) ∷ [];
      },
    )
unfolding join_path path_of int_eq forget_cookie
create_event-moved_example =
    create_event-moved ok watcher (pos 1) (pos 2) 5 (47 ∷ 97 ∷ []) (47 ∷ 98 ∷ []) (99 ∷ [])
      (100 ∷ []) (99 ∷ []) (100 ∷ []) refl refl refl refl (λ e. cc e)
