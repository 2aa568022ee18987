-- ===== src/Prot/Codec.antt =====
-- Reading what was written, for the values of pkg/prot/primitives.go and the frames of
-- pkg/prot/conn.go.
use mathlib.Core.Path.{subst}
use mathlib.Core.List.{append_assoc}
use basiccoin.Base.{
  ℕ, ◌^◌, ◌<◌, ◌≤◌, ◌≡◌, refl, ap, ◌∙◌, Bool, true, false, none, List, [], ◌∷◌, ◌++◌, arith, length,
  length-append, take, ltb, le→ltb-false, if◌then◌else◌,
}
use basiccoin.Base.Eq.{nat_eq, list_beq, list_beq_iff}
use basiccoin.Hash.{of_bytes, fill_bytes}
use basiccoin.Hash.Value.{length-fill_bytes, of_bytes-fill_bytes_mod}
use basiccoin.Prot.{
  ProtParams, NetError, Conn, Io, ◌>>=◌, ◌>>◌, pure, unless_err, drop, read_full, read_raw, send,
  write_raw, read, write, read_uint64, write_uint64, bool_of_byte, read_bool, write_bool,
  read_string, write_string, read_string_expected, fail, wrong_string,
}

-- An open connection without a stored error.
abbrev pub live : ProtParams → NetError → List ℕ → List ℕ → List ℕ → Conn
live params starved peer_runtime_id incoming outgoing = record {
  params = params;
  incoming = incoming;
  starved = starved;
  outgoing = outgoing;
  is_closed = false;
  peer_runtime_id = peer_runtime_id;
  err = none;
}

-- The operation takes these bytes off what comes in, gives this value, and does nothing else.
abbrev pub Reads {ℓ} : {A : Type ℓ} → Io A → List ℕ → A → Type ℓ
Reads m bytes a =
    (p : ProtParams) (s : NetError) (r rest out : List ℕ)
    → m (live p s r (bytes ++ rest) out) ≡ (a, live p s r rest out)

-- The operation sends these bytes, and does nothing else.
abbrev pub Writes : Io (Unit {0}) → List ℕ → Type 0
Writes m bytes =
    (p : ProtParams) (s : NetError) (r inc out : List ℕ)
    → m (live p s r inc out) ≡ (tt, live p s r inc (out ++ bytes))

pub Reads->>= {ℓ κ} :
    {A : Type ℓ} {B : Type κ} (m : Io A) (f : A → Io B) (bytes more : List ℕ) (a : A) (b : B)
    → Reads m bytes a
    → Reads (f a) more b
    → Reads (m >>= f) (bytes ++ more) b
unfolding ◌>>=◌
Reads->>= {A = A} m f bytes more a b h k p s r rest out =
    ap (λ (x : A × Conn). f x.0 x.1)
      (ap (λ (l : List ℕ). m (live p s r l out)) (append_assoc bytes more rest)
        ∙ h p s r (more ++ rest) out)
    ∙ k p s r rest out

-- The same when the second operation reads nothing.
pub Reads-last {ℓ κ} :
    {A : Type ℓ} {B : Type κ} (m : Io A) (f : A → Io B) (bytes : List ℕ) (a : A) (b : B)
    → Reads m bytes a
    → Reads (f a) [] b
    → Reads (m >>= f) bytes b
unfolding ◌>>=◌
Reads-last {A = A} m f bytes a b h k p s r rest out =
    ap (λ (x : A × Conn). f x.0 x.1) (h p s r rest out) ∙ k p s r rest out

pub Writes->> :
    (m k : Io (Unit {0})) (bytes more : List ℕ)
    → Writes m bytes
    → Writes k more
    → Writes (m >> k) (bytes ++ more)
unfolding ◌>>◌
Writes->> m k bytes more h next p s r inc out =
    ap (λ (x : Unit {0} × Conn). k x.1) (h p s r inc out)
    ∙ next p s r inc (out ++ bytes)
    ∙ ap (λ (l : List ℕ). (tt, live p s r inc l)) (append_assoc out bytes more)

take-append : (bs rest : List ℕ) → take (length bs) (bs ++ rest) ≡ bs
take-append [] rest = refl
take-append (b ∷ bs) rest = ap (λ (l : List ℕ). b ∷ l) (take-append bs rest)

drop-append : (bs rest : List ℕ) → drop (length bs) (bs ++ rest) ≡ rest
drop-append [] rest = refl
drop-append (b ∷ bs) rest = drop-append bs rest

pub read_raw-Reads : (n : ℕ) (bytes : List ℕ) → length bytes ≡ n → Reads (read_raw n) bytes bytes
unfolding read_raw read_full
read_raw-Reads n bytes size p s r rest out =
    let enough : ltb (length (bytes ++ rest)) n ≡ false =
      le→ltb-false _ _ (omega (arith, length-append bytes rest)) in
    rw (enough, ← size, take-append bytes rest, drop-append bytes rest) refl

pub write_raw-Writes : (bytes : List ℕ) → length bytes ≤ 65536 → Writes (write_raw bytes) bytes
unfolding write_raw send
write_raw-Writes bytes small p s r inc out = rw (le→ltb-false 65536 (length bytes) small) refl

-- The size in two bytes, then the bytes.
abbrev pub frame : List ℕ → List ℕ
frame bytes = fill_bytes 2 (length bytes) ++ bytes

pub read-Reads : (bytes : List ℕ) → length bytes < 65536 → Reads read (frame bytes) bytes
unfolding read
read-Reads bytes small =
    Reads->>= (read_raw 2) (λ size_b. unless_err [] (read_raw (of_bytes size_b)))
      (fill_bytes 2 (length bytes)) bytes _ _
      (read_raw-Reads 2 _ (length-fill_bytes 2 (length bytes)))
      (read_raw-Reads _ bytes (omega (arith, of_bytes-fill_bytes_mod 2 (length bytes))))

pub write-Writes : (bytes : List ℕ) → length bytes ≤ 65536 → Writes (write bytes) (frame bytes)
unfolding write
write-Writes bytes small p s r inc out = rw (le→ltb-false 65536 (length bytes) small) (
    Writes->> (write_raw (fill_bytes 2 (length bytes))) (write_raw bytes) _ bytes
      (write_raw-Writes _ (omega (arith, length-fill_bytes 2 (length bytes))))
      (write_raw-Writes bytes small) p s r inc out)

pub uint64-Reads : (n : ℕ) → n < 2 ^ 64 → Reads read_uint64 (fill_bytes 8 n) n
unfolding read_uint64
uint64-Reads n small =
    Reads-last (read_raw 8) (λ raw. unless_err 0 (pure (of_bytes raw))) (fill_bytes 8 n)
      (fill_bytes 8 n) n (read_raw-Reads 8 _ (length-fill_bytes 8 n))
      (λ p s r rest out.
        ap (λ (k : ℕ). (k, live p s r rest out)) (of_bytes-fill_bytes_mod 8 n ∙ omega arith))

pub uint64-Writes : (n : ℕ) → Writes (write_uint64 n) (fill_bytes 8 n)
unfolding write_uint64
uint64-Writes n = write_raw-Writes _ (omega (arith, length-fill_bytes 8 n))

abbrev pub bool_byte : Bool → List ℕ
bool_byte true = 1 ∷ []
bool_byte false = 0 ∷ []

pub bool-Reads : (b : Bool) → Reads read_bool (bool_byte b) b
unfolding read_bool bool_of_byte
bool-Reads true =
    Reads-last (read_raw 1) (λ raw. unless_err false (bool_of_byte raw)) (1 ∷ []) (1 ∷ []) true
      (read_raw-Reads 1 (1 ∷ []) refl) (λ p s r rest out. refl)
bool-Reads false =
    Reads-last (read_raw 1) (λ raw. unless_err false (bool_of_byte raw)) (0 ∷ []) (0 ∷ []) false
      (read_raw-Reads 1 (0 ∷ []) refl) (λ p s r rest out. refl)

pub bool-Writes : (b : Bool) → Writes (write_bool b) (bool_byte b)
unfolding write_bool
bool-Writes true = write_raw-Writes (1 ∷ []) (omega arith)
bool-Writes false = write_raw-Writes (0 ∷ []) (omega arith)

pub string-Reads : (text : List ℕ) → length text < 65536 → Reads read_string (frame text) text
unfolding read_string
string-Reads text small =
    Reads-last read (λ raw. unless_err [] (pure raw)) (frame text) text text (read-Reads text small)
      (λ p s r rest out. refl)

pub string-Writes : (text : List ℕ) → length text ≤ 65536 → Writes (write_string text) (frame text)
unfolding write_string
string-Writes = write-Writes

pub string_expected-Reads :
    (text : List ℕ) → length text < 65536 → Reads (read_string_expected text) (frame text) tt
unfolding read_string_expected
string_expected-Reads text small =
    Reads-last read_string
      (λ actual. unless_err tt (if list_beq actual text then pure tt else fail tt wrong_string))
      (frame text) text tt (string-Reads text small)
      (λ p s r rest out. rw ((list_beq_iff text text).1 refl) refl)

-- `Write` accepts 65536 bytes and sends them after the size 0, and `Read` takes that size for an
-- empty message, leaving the bytes unread.
pub read-write_65536 :
    (bytes : List ℕ)
    → length bytes ≡ 65536
    → Writes (write bytes) (0 ∷ 0 ∷ bytes) × Reads read (0 ∷ 0 ∷ []) []
unfolding fill_bytes
read-write_65536 bytes size =
    let zero_size : fill_bytes 2 (length bytes) ≡ 0 ∷ 0 ∷ [] = ap (fill_bytes 2) size in
    (
      subst (λ (l : List ℕ). Writes (write bytes) (l ++ bytes)) zero_size
          (write-Writes bytes (omega arith)),
      read-Reads [] (omega arith),
    )
