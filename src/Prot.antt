-- ===== src/Prot.antt =====
-- pkg/prot: what two peers send each other. A connection is what the peer has sent and is not yet
-- read, what is sent to the peer, and the stored error; an operation on it returns a value, the
-- zero value after an error, and the connection that it leaves. Deadlines are left out: a read
-- that finds too little fails with the error that the connection holds for it, a timeout or the
-- end of the stream. Printing for debugging is left out.
pub mod Entities
pub mod Handshake
pub mod Codec
pub mod RoundTrip
pub mod Meeting
use basiccoin.Base.{
  ℕ, zero, suc, ◌-◌, ◌%◌, ◌^◌, Bool, true, false, Option, none, some, List, [], ◌∷◌, ◌++◌, length,
  take, ltb, if◌then◌else◌,
}
use basiccoin.Base.Eq.{Eq, ◌==◌, nat_eq, list_beq}
use basiccoin.Hash.{of_bytes, fill_bytes}

pub data NetError : Type 0 where
  timeout end_of_stream closed_conn too_many_bytes bad_bool_byte wrong_string wrong_id : NetError
  self_connection peer_does_not_want unrecognized_response : NetError

pub record ProtParams : Type 0 where
  pub runtime_id : List ℕ
  pub we_are_initiator : Bool

pub record Conn : Type 0 where
  pub params : ProtParams
  pub incoming : List ℕ
  -- The error of a read that finds too few bytes.
  pub starved : NetError
  pub outgoing : List ℕ
  pub is_closed : Bool
  pub peer_runtime_id : List ℕ
  pub err : Option NetError

-- An operation on a connection.
abbrev pub Io {ℓ} : Type ℓ → Type ℓ
Io A = Conn → A × Conn

infixl 5 ◌>>=◌ ◌>>◌
unfoldable pub ◌>>=◌ {ℓ κ} : {A : Type ℓ} {B : Type κ} → Io A → (A → Io B) → Io B
◌>>=◌ m f c = f (m c).0 (m c).1

unfoldable pub ◌>>◌ {κ} : {B : Type κ} → Io (Unit {0}) → Io B → Io B
◌>>◌ m k c = k (m c).1

abbrev pub pure {ℓ} : {A : Type ℓ} → A → Io A
pure a c = (a, c)

abbrev pub fail {ℓ} : {A : Type ℓ} → A → NetError → Io A
fail zero_value e c = (zero_value, record c { err = some e })

-- `if c.err != nil { return zero }`
abbrev pub unless_err {ℓ} : {A : Type ℓ} → A → Io A → Io A
unless_err zero_value m c = elim c.err [ none ↦ m c | some e ↦ (zero_value, c) ]

abbrev pub drop : ℕ → List ℕ → List ℕ
drop zero bs = bs
drop (suc n) [] = []
drop (suc n) (b ∷ bs) = drop n bs

-- `io.ReadFull`: a short read takes what there is.
unfoldable pub read_full : ℕ → Io (List ℕ)
read_full num_bytes c =
    if c.is_closed
    then fail [] closed_conn c
    else if ltb (length c.incoming) num_bytes
    then ([], record c { incoming = []; err = some c.starved })
    else (take num_bytes c.incoming, record c { incoming = drop num_bytes c.incoming })

unfoldable pub read_raw : ℕ → Io (List ℕ)
read_raw num_bytes = unless_err [] (read_full num_bytes)

unfoldable pub send : List ℕ → Io (Unit {0})
send bytes c =
    if c.is_closed then fail tt closed_conn c else (tt, record c { outgoing = c.outgoing ++ bytes })

unfoldable pub write_raw : List ℕ → Io (Unit {0})
write_raw bytes =
    unless_err tt (if ltb 65536 (length bytes) then fail tt too_many_bytes else send bytes)

-- `ReadTimeout`, and `Read`.
unfoldable pub read : Io (List ℕ)
read = unless_err [] (do size_b ← read_raw 2; unless_err [] (read_raw (of_bytes size_b)))

-- The size is converted to 16 bits.
unfoldable pub write : List ℕ → Io (Unit {0})
write bytes = unless_err tt (
    if ltb 65536 (length bytes)
    then fail tt too_many_bytes
    else do write_raw (fill_bytes 2 (length bytes)); write_raw bytes)

unfoldable pub close : Io (Unit {0})
close c = (tt, record c { is_closed = true })

unfoldable pub read_string : Io (List ℕ)
read_string = unless_err [] (do raw ← read; unless_err [] (pure raw))

unfoldable pub read_string_expected : List ℕ → Io (Unit {0})
read_string_expected expected = unless_err tt (do
  actual ← read_string
  unless_err tt (if list_beq actual expected then pure tt else fail tt wrong_string))

unfoldable pub write_string : List ℕ → Io (Unit {0})
write_string text = unless_err tt (write text)

unfoldable pub read_uint64 : Io ℕ
read_uint64 = unless_err 0 (do raw ← read_raw 8; unless_err 0 (pure (of_bytes raw)))

unfoldable pub write_uint64 : ℕ → Io (Unit {0})
write_uint64 n = unless_err tt (write_raw (fill_bytes 8 n))

unfoldable pub bool_of_byte : List ℕ → Io Bool
bool_of_byte [] = fail false bad_bool_byte
bool_of_byte (b ∷ bs) =
    if b == 0 then pure false else if b == 1 then pure true else fail false bad_bool_byte

unfoldable pub read_bool : Io Bool
read_bool = unless_err false (do raw ← read_raw 1; unless_err false (bool_of_byte raw))

unfoldable pub write_bool : Bool → Io (Unit {0})
write_bool b = unless_err tt (if b then write_raw (1 ∷ []) else write_raw (0 ∷ []))
