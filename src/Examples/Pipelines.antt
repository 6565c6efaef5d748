-- ===== src/Examples/Pipelines.antt =====
-- Sinks, streams and encryption at concrete inputs.
use rohmu.Base.{
  ◌∷◌, pos, Bytes, List, join, [], take, ◌≡◌, length, ok, arith, err, slice, refl, inr, index_error,
  drop,
}
use rohmu.Sink.{write_to_next_sink, throttle_data_written}
use rohmu.Sink.Delivery.{Sent, write_to_next_sink-Sent}
use rohmu.Stream.{open_stream, read}
use rohmu.Stream.Read.{Reads, read-Reads, read_zero}
use rohmu.Encryptor.{new_encryptor}
use rohmu.Encryptor.Seal.{seal, encrypt_pieces, encrypt_pieces-seal}
use rohmu.DecryptSink.{DecryptSink, new_decrypt_sink, decrypt_write}
use rohmu.DecryptSink.Feed.{feed, decrypt_sink_roundtrip}
use rohmu.Examples.Toy.{
  toy_crypto, toy_crypto-IsLawful, toy_random, toy_random-HasSizes, short_output,
  short_output-Delivers, byte_source, byte_source-Finite, doubling, doubling-Emits,
}

write_to_next_sink-Sent_example :
    Sent short_output throttle_data_written short_output-Delivers
      (1 ∷ 2 ∷ 3 ∷ [])
      []
      (write_to_next_sink short_output throttle_data_written (1 ∷ 2 ∷ 3 ∷ []) (0, []))
write_to_next_sink-Sent_example =
    write_to_next_sink-Sent short_output throttle_data_written short_output-Delivers
      (1 ∷ 2 ∷ 3 ∷ []) 0 []

throttled_write :
    write_to_next_sink short_output throttle_data_written (1 ∷ 2 ∷ 3 ∷ []) (0, [])
    ≡ (ok tt, (1, 1 ∷ 2 ∷ 3 ∷ []))
unfolding write_to_next_sink throttle_data_written
throttled_write = refl

read-Reads_example :
    Reads byte_source doubling doubling-Emits
      (pos 3)
      (open_stream byte_source doubling (1 ∷ 2 ∷ 3 ∷ []) [])
      (read byte_source doubling 4 8192
        (pos 3)
        (open_stream byte_source doubling (1 ∷ 2 ∷ 3 ∷ []) []))
read-Reads_example =
    read-Reads byte_source doubling doubling-Emits byte_source-Finite 4 8192 (pos 3)
      (open_stream byte_source doubling (1 ∷ 2 ∷ 3 ∷ []) []) (omega arith) (inr (λ e. cc))

read_three :
    (read byte_source doubling 4 8192
      (pos 3)
      (open_stream byte_source doubling (1 ∷ 2 ∷ 3 ∷ []) [])).0
    ≡ ok (1 ∷ 1 ∷ 2 ∷ [])
unfolding read
read_three = refl

read_zero_example :
    read byte_source doubling 4 8192 (pos 0) (open_stream byte_source doubling (1 ∷ []) [])
    ≡ (err index_error, open_stream byte_source doubling (1 ∷ []) [])
read_zero_example =
    read_zero byte_source doubling 4 8192 (open_stream byte_source doubling (1 ∷ []) []) refl

encrypt_pieces-seal_example :
    encrypt_pieces toy_crypto toy_random ((1 ∷ 2 ∷ []) ∷ (3 ∷ []) ∷ []) (new_encryptor toy_crypto)
    ≡ (ok (seal toy_crypto toy_random (1 ∷ 2 ∷ 3 ∷ [])), new_encryptor toy_crypto)
encrypt_pieces-seal_example =
    encrypt_pieces-seal toy_crypto toy_crypto-IsLawful toy_random toy_random-HasSizes (1 ∷ 2 ∷ [])
      ((3 ∷ []) ∷ [])

abbrev sealed : Bytes
unfolding seal
sealed = seal toy_crypto toy_random (1 ∷ 2 ∷ 3 ∷ [])

abbrev pieces : List Bytes
pieces = take 3 sealed ∷ [] ∷ slice 3 70 sealed ∷ drop 70 sealed ∷ []

pieces_whole : join pieces ≡ seal toy_crypto toy_random (1 ∷ 2 ∷ 3 ∷ [])
unfolding seal sealed
pieces_whole = refl

decrypt_sink_roundtrip_example :
    (s t : DecryptSink toy_crypto short_output) × (new_decrypt_sink toy_crypto short_output
        (pos (length (seal toy_crypto toy_random (1 ∷ 2 ∷ 3 ∷ []))))
        []
      ≡ ok s)
    × (feed (decrypt_write toy_crypto short_output) pieces s ≡ (ok tt, t))
    × (t.next_sink ≡ 1 ∷ 2 ∷ 3 ∷ [])
decrypt_sink_roundtrip_example =
    decrypt_sink_roundtrip toy_crypto toy_crypto-IsLawful toy_random toy_random-HasSizes
      short_output short_output-Delivers (1 ∷ 2 ∷ 3 ∷ []) [] pieces pieces_whole
