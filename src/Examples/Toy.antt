-- ===== src/Examples/Toy.antt =====
-- A cipher, a signature, an output, a source and a processor that run, and meet the assumptions.
use rohmu.Base.{
  refl, Bool, Bytes, ℕ, ap, [], ◌+◌, ◌∷◌, true, ◌++◌, length, false, ok, take, ◌<◌, suc, ◌-◌, ◌≡◌,
  take-append, arith, zero, ap₂, sym, length-take, length-append,
}
use rohmu.Crypto.{Crypto, IsLawful, Random, HasSizes}
use rohmu.Sink.{Output}
use rohmu.Sink.Delivery.{Delivers}
use rohmu.Stream.{Source, Processor}
use rohmu.Stream.Fill.{Emits, Finite}

abbrev shift : Bool → ℕ → ℕ
shift true b = b + 1
shift false b = b - 1

abbrev shift_all : Bool → Bytes → Bytes
shift_all c [] = []
shift_all c (b ∷ bs) = shift c b ∷ shift_all c bs

abbrev total : Bytes → ℕ → ℕ
total [] m = m
total (b ∷ bs) m = total bs (m + b)

abbrev pub zeros : ℕ → Bytes
zeros zero = []
zeros (suc n) = 0 ∷ zeros n

-- Encrypting adds 1 to each byte, a signature is the sum, and RSA puts a byte behind the message.
abbrev pub toy_crypto : Crypto
toy_crypto = record {
  Cipher = Bool;
  Mac = ℕ;
  encryptor = λ key nonce. true;
  decryptor = λ key nonce. false;
  cipher_update = λ bytes c. (shift_all c bytes, c);
  cipher_finalize = λ c. [];
  hmac = λ key. 0;
  hmac_update = total;
  hmac_finalize = λ m. m ∷ zeros 31;
  rsa_encrypt = λ seed message. message ++ 7 ∷ [];
  rsa_decrypt = λ bytes. ok (take 64 bytes);
}

shift_all-append :
    (c : Bool) (xs ys : Bytes) → shift_all c (xs ++ ys) ≡ shift_all c xs ++ shift_all c ys
shift_all-append c [] ys = refl
shift_all-append c (x ∷ xs) ys = ap (λ t. shift c x ∷ t) (shift_all-append c xs ys)

length-shift_all : (c : Bool) (xs : Bytes) → length (shift_all c xs) ≡ length xs
length-shift_all c [] = refl
length-shift_all c (x ∷ xs) = ap suc (length-shift_all c xs)

shift_back : (xs : Bytes) → shift_all false (shift_all true xs) ≡ xs
shift_back [] = refl
shift_back (x ∷ xs) = let e : x + 1 - 1 ≡ x = omega arith in ap₂ (λ a b. a ∷ b) e (shift_back xs)

total-append : (xs ys : Bytes) (m : ℕ) → total (xs ++ ys) m ≡ total ys (total xs m)
total-append [] ys m = refl
total-append (x ∷ xs) ys m = total-append xs ys (m + x)

pub toy_crypto-IsLawful : IsLawful toy_crypto
toy_crypto-IsLawful = record {
  update-append = λ xs ys c. ap (λ t. (t, c)) (shift_all-append c xs ys);
  update-nil = λ c. refl;
  length-update = λ xs c. length-shift_all c xs;
  finalize_empty = λ c. refl;
  decrypts = λ key nonce xs. shift_back xs;
  hmac-append = λ xs ys m. total-append xs ys m;
  hmac-nil = λ m. refl;
  length-hmac = λ m. refl;
  rsa_decrypts = λ seed message h. ap ok (take-append 64 message (7 ∷ []) (sym h));
  rsa_some = λ seed message h. omega (arith, length-append message (7 ∷ []));
  rsa_short = λ seed message h. omega (arith, length-append message (7 ∷ []));
}

abbrev pub toy_random : Random
toy_random = record { key = zeros 16; nonce = zeros 16; auth_key = zeros 32; seed = [] }

pub toy_random-HasSizes : HasSizes toy_random
toy_random-HasSizes = record { key_size = refl; nonce_size = refl; auth_key_size = refl }

-- An output that takes at most two bytes in a call.
abbrev pub short_output : Output
short_output = record {
  State = Bytes;
  write = λ bytes s. (ok (length (take 2 bytes)), s ++ take 2 bytes);
}

abbrev pub short_output-Delivers : Delivers short_output
short_output-Delivers = record {
  received = λ s. s;
  accepts = λ d s some_d. record {
    count = length (take 2 d);
    after = s ++ take 2 d;
    returns = refl;
    progress = omega (arith, length-take 2 d);
    within = omega (arith, length-take 2 d);
    appended = ap (λ t. s ++ t) (sym (take_again d));
  };
}
  where
    take_again : (d : Bytes) → take (length (take 2 d)) d ≡ take 2 d
    take_again [] = refl
    take_again (a ∷ []) = refl
    take_again (a ∷ b ∷ d) = refl

-- A source that gives one byte at a time, and a processor that keeps a log of what it put out.
abbrev next_byte : Bytes → Bytes × Bytes
next_byte [] = ([], [])
next_byte (b ∷ bs) = (b ∷ [], bs)

abbrev pub byte_source : Source
byte_source = record { State = Bytes; read = λ k s. next_byte s }

abbrev pub byte_source-Finite : Finite byte_source
byte_source-Finite = record { left = length; shrinks = λ k s. go s }
  where
    go : (s : Bytes) → 0 < length (next_byte s).0 → length (next_byte s).1 < length s
    go [] h = absurd (omega arith)
    go (b ∷ bs) h = omega arith

abbrev pub doubling : Processor
doubling = record {
  State = Bytes;
  process_chunk = λ c log. (c ++ c, log ++ (c ++ c));
  finalize = λ log. (0 ∷ [], log ++ 0 ∷ []);
}

abbrev pub doubling-Emits : Emits doubling
doubling-Emits = record {
  emitted = λ log. log;
  emits_chunk = λ c log. refl;
  emits_final = λ log. refl;
}
