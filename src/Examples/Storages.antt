-- ===== src/Examples/Storages.antt =====
-- Keys at concrete inputs.
use rohmu.Storage.Keys.{format_key_roundtrip, format_key_refused}
use rohmu.Base.{◌∷◌, [], ◌≡◌, false, ok, true, refl, err, storage_error}
use rohmu.Storage.{format_key_from_backend, format_key_for_backend, starts_with}

-- The prefix "p/", whose slash is not in front, and the key "ab"
format_key_roundtrip_example :
    (format_key_from_backend
        (112 ∷ 47 ∷ [])
        (format_key_for_backend (112 ∷ 47 ∷ []) (97 ∷ 98 ∷ []) true false)
      ≡ ok (97 ∷ 98 ∷ []))
    × (format_key_from_backend
          (112 ∷ 47 ∷ [])
          (format_key_for_backend (112 ∷ 47 ∷ []) (97 ∷ 98 ∷ []) true true)
        ≡ ok (97 ∷ 98 ∷ 47 ∷ []))
unfolding starts_with
format_key_roundtrip_example =
    format_key_roundtrip (112 ∷ 47 ∷ []) (97 ∷ []) 98 true refl (λ e. refl)

-- The prefix "/p/"
format_key_refused_example :
    format_key_from_backend
      (47 ∷ 112 ∷ 47 ∷ [])
      (format_key_for_backend (47 ∷ 112 ∷ 47 ∷ []) (97 ∷ 98 ∷ []) true false)
    ≡ err storage_error
format_key_refused_example = format_key_refused (112 ∷ 47 ∷ []) (97 ∷ 98 ∷ []) false
