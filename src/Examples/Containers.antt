-- ===== src/Examples/Containers.antt =====
-- A whole container file: opening it, verifying it and changing its password. The encoding knows a few
-- headers by a number.
use cipher_fs.V2.Aad.{index_aad}
use cipher_fs.V2.Chunk.Reopening.{open_container_sealed}
use cipher_fs.V2.Keys.Unlocking.{Opens}
use cipher_fs.Base.Orders.{IsOrderOf-refl}
use cipher_fs.Base.Sort.{sort_by_key}
use cipher_fs.V2.Names.{validate_name}
use cipher_fs.Base.Map.{insert, get}
use cipher_fs.V2.Chunk.Verify.{
  file_chunks, only_files, total_size, verify_chunks, start_tracker, verify_all_with_control_lem,
  files_by_offset, verify_all_with_control,
}
use cipher_fs.V2.Index.{validate_index}
use cipher_fs.V2.Chunk.Opening.{open_container}
use cipher_fs.V2.Chunk.{decrypt_chunk, OpenedContainer}
use cipher_fs.V2.Crypto.{encrypt_aead, derive_file_key, derive_index_key, decrypt_aead, derive_kek}
use cipher_fs.V2.Password.Outcome.{change_password_keeps_access}
use cipher_fs.V2.Container.Storage.{read_header-serialize_header}
use cipher_fs.Operation.World.{check, report, read_exact_at, World}
use cipher_fs.V2.Password.Writes.{IsFinal, Holds}
use cipher_fs.V2.Keys.{unlock}
use cipher_fs.V2.Password.{change_password_inner, ChangeRandom}
use cipher_fs.Examples.{toy-IsAead, toy, tag}
use cipher_fs.Errors.{ok}
use cipher_fs.Examples.Chunks.{hello_entry, hello_valid, hello_index}
use cipher_fs.V2.Limits.{encrypted_file_size, validate_argon2, validate_header_basic}
use cipher_fs.V2.Container.{read_header, serialize_header, IsCodec, Codec}
use cipher_fs.Examples.Indexes.{plain_header, closed_slot}
use cipher_fs.Base.Words.{codes, bytes_eq, Bytes}
use cipher_fs.Examples.Slots.{open_slot, old_password, data_key, noise, keyed_header}
use cipher_fs.Format.{require_v2}
use cipher_fs.Format.Detecting.{require_v2-read_header}
use cipher_fs.V2.Types.{
  unlocked, header_bytes, KeySlot_random_disabled, Index, Entry, EntryKind, Header, DuressSlot,
  KeySlot, Argon2Params,
}
use cipher_fs.Base.{
  ◌≢◌, inl, List, refl, false, true, arith, drop, suc, zero, sym, ap, ◌++◌, none, [], ◌∷◌,
  length-replicate, replicate, some, ite, Option, ◌≡◌, length, ℕ, ℕ_discrete,
}
use mathlib.Core.List

params_discrete : Discrete Argon2Params
params_discrete = hlevel ℕ_discrete

slot_discrete : Discrete KeySlot
slot_discrete = hlevel (ℕ_discrete, List.List-discrete, params_discrete)

duress_discrete : Discrete DuressSlot
duress_discrete = hlevel (ℕ_discrete, List.List-discrete, params_discrete)

pub header_discrete : Discrete Header
header_discrete = hlevel (ℕ_discrete, List.List-discrete, slot_discrete, duress_discrete)

kind_discrete : Discrete EntryKind
kind_discrete = hlevel

entry_discrete : Discrete Entry
entry_discrete = hlevel (ℕ_discrete, List.List-discrete, kind_discrete)

pub index_discrete : Discrete Index
index_discrete = hlevel (List.List-discrete, entry_discrete)

-- A container of sixteen index bytes and no data, before and during a change of its password.
abbrev first_header : Header
first_header = keyed_header

abbrev new_password : Bytes
new_password = 2 ∷ []

abbrev new_slot : KeySlot
new_slot = record closed_slot {
  generation = 2;
  salt = noise.salt;
  nonce = noise.nonce;
  encrypted_dek = data_key ++ tag new_password;
}

abbrev both_header : Header
both_header = record first_header { slot_1 = new_slot }

abbrev last_header : Header
last_header = record both_header { slot_0 = KeySlot_random_disabled noise }

-- A container of one file of five bytes.
abbrev hello_header : Header
hello_header = record (plain_header 21 2) { index_size = 17; slot_0 = open_slot }

-- The containers' headers by number.
abbrev header_of : ℕ → Option Header
header_of zero = some first_header
header_of (suc zero) = some both_header
header_of (suc (suc zero)) = some last_header
header_of (suc (suc (suc n))) = some hello_header

abbrev number_of :
    (h : Header)
    → Dec (h ≡ first_header)
    → Dec (h ≡ both_header)
    → Dec (h ≡ last_header)
    → Dec (h ≡ hello_header)
    → Option Bytes
number_of h a b d e =
    ite a (some (0 ∷ []))
      (ite b (some (1 ∷ [])) (ite d (some (2 ∷ [])) (ite e (some (3 ∷ [])) none)))

abbrev decode_number : Bytes → Option Header
decode_number [] = none
decode_number (n ∷ rest) = header_of n

unfoldable pub encode_number : Header → Option Bytes
encode_number h =
    number_of h (header_discrete h first_header) (header_discrete h both_header)
      (header_discrete h last_header) (header_discrete h hello_header)

abbrev pub numbered : Codec
numbered = record {
  encode_header = encode_number;
  decode_header = decode_number;
  encode_index = λ i. ite (index_discrete i hello_index) (some (1 ∷ [])) none;
  decode_index = λ bytes. some hello_index;
}

numbered_header :
    (h : Header) (bytes rest : Bytes) (a : Dec (h ≡ first_header)) (b : Dec (h ≡ both_header))
    (d : Dec (h ≡ last_header)) (f : Dec (h ≡ hello_header))
    → number_of h a b d f ≡ some bytes
    → decode_number (bytes ++ rest) ≡ some h
numbered_header h bytes rest (yes p) b d f e =
    let q : 0 ∷ [] ≡ bytes = cc in rw⁻¹ q (ap some (sym p))
numbered_header h bytes rest (no n) (yes p) d f e =
    let q : 1 ∷ [] ≡ bytes = cc in rw⁻¹ q (ap some (sym p))
numbered_header h bytes rest (no n) (no m) (yes p) f e =
    let q : 2 ∷ [] ≡ bytes = cc in rw⁻¹ q (ap some (sym p))
numbered_header h bytes rest (no n) (no m) (no k) (yes p) e =
    let q : 3 ∷ [] ≡ bytes = cc in rw⁻¹ q (ap some (sym p))
numbered_header h bytes rest (no n) (no m) (no k) (no l) e = cc

numbered_index :
    (i : Index) (bytes : Bytes) (a : Dec (i ≡ hello_index))
    → ite a (some (1 ∷ [])) none ≡ some bytes
    → some hello_index ≡ some i
numbered_index i bytes (yes p) e = ap some (sym p)
numbered_index i bytes (no n) e = cc

numbered_law : IsCodec numbered
unfolding encode_number
numbered_law = record {
  header = λ h bytes rest e.
      numbered_header h bytes rest (header_discrete h first_header) (header_discrete h both_header)
        (header_discrete h last_header) (header_discrete h hello_header) e;
  index = λ i bytes e few. numbered_index i bytes (index_discrete i hello_index) e;
}

abbrev old_file : Bytes
old_file = replicate 4112 6

length-old_file : length old_file ≡ 4112
length-old_file = length-replicate {A = ℕ} 4112 6

number_first :
    (a : Dec (first_header ≡ first_header)) (b : Dec (first_header ≡ both_header))
    (d : Dec (first_header ≡ last_header)) (e : Dec (first_header ≡ hello_header))
    → number_of first_header a b d e ≡ some (0 ∷ [])
number_first (yes p) b d e = refl
number_first (no n) b d e = absurd (n refl)

encode_first : encode_number first_header ≡ some (0 ∷ [])
unfolding encode_number
encode_first =
    number_first (header_discrete first_header first_header)
      (header_discrete first_header both_header) (header_discrete first_header last_header)
      (header_discrete first_header hello_header)

-- It has seventeen bytes of index, the others sixteen.
other_size : (h : Header) → h.index_size ≡ 16 → hello_header ≢ h
other_size h e same = let q = ap (λ (x : Header). x.index_size) same in omega arith

number_last :
    (a : Dec (hello_header ≡ first_header)) (b : Dec (hello_header ≡ both_header))
    (d : Dec (hello_header ≡ last_header)) (e : Dec (hello_header ≡ hello_header))
    → number_of hello_header a b d e ≡ some (3 ∷ [])
number_last (yes p) b d e = absurd (other_size first_header refl p)
number_last (no n) (yes p) d e = absurd (other_size both_header refl p)
number_last (no n) (no m) (yes p) e = absurd (other_size last_header refl p)
number_last (no n) (no m) (no k) (yes p) = refl
number_last (no n) (no m) (no k) (no l) = absurd (l refl)

abbrev first_bytes : Bytes
first_bytes = (0 ∷ []) ++ replicate 4095 0

first_written : serialize_header numbered first_header ≡ ok first_bytes
unfolding serialize_header
first_written = rw encode_first refl

first_valid_here : validate_header_basic first_header (some (length old_file)) ≡ ok tt
unfolding validate_header_basic bytes_eq validate_argon2
first_valid_here = refl

abbrev first_file : Bytes
first_file = first_bytes ++ drop header_bytes old_file

read_header-serialize_header_example : read_header numbered first_file ≡ ok first_header
read_header-serialize_header_example =
    read_header-serialize_header numbered numbered_law first_header first_bytes old_file
      first_written (omega (arith, length-old_file)) first_valid_here

abbrev change_random : ChangeRandom
change_random = record { fresh = noise; disabled = noise; wiped_0 = noise; wiped_1 = noise }

first_opens : unlock toy first_header old_password ≡ ok (unlocked data_key)
unfolding unlock validate_header_basic bytes_eq validate_argon2 derive_kek decrypt_aead
first_opens = refl

unlocked_first : Holds toy numbered first_file old_password data_key
unlocked_first = record {
  header = first_header;
  read = read_header-serialize_header_example;
  opens = first_opens;
}

-- The second write is refused, after the first and its sync.
abbrev first_world : World
first_world = record {
  file = first_file;
  refusals = false ∷ false ∷ true ∷ [];
  cancels = [];
  events = [];
}

change_password_keeps_access_example :
    IsFinal toy numbered first_file old_password new_password data_key
      (change_password_inner toy numbered old_password new_password change_random first_world)
change_password_keeps_access_example =
    change_password_keeps_access toy numbered toy-IsAead numbered_law first_world old_password
      new_password data_key change_random refl unlocked_first

abbrev pub hello_file : Bytes
hello_file = (3 ∷ replicate 4095 0) ++ ((1 ∷ tag data_key) ++ (codes "hello" ++ tag data_key))

abbrev hello_world : World
hello_world = record { file = hello_file; refusals = []; cancels = []; events = [] }

abbrev pub hello_container : OpenedContainer
hello_container = record {
  file = hello_file;
  header = hello_header;
  index = hello_valid;
  dek = data_key;
  data_start = 4113;
}

pub hello_opens :
    open_container toy numbered old_password noise noise hello_world
    ≡ (ok hello_container, hello_world)
unfolding open_container read_header read_exact_at validate_header_basic bytes_eq validate_argon2
    unlock derive_kek decrypt_aead derive_index_key validate_index validate_name encrypted_file_size
    get insert ℕ_discrete sort_by_key
hello_opens = refl

abbrev hello_bytes : Bytes
hello_bytes = (3 ∷ []) ++ replicate 4095 0

encode_hello : encode_number hello_header ≡ some (3 ∷ [])
unfolding encode_number
encode_hello =
    number_last (header_discrete hello_header first_header)
      (header_discrete hello_header both_header) (header_discrete hello_header last_header)
      (header_discrete hello_header hello_header)

-- The chunks in their order.
abbrev same_order : List (Entry × ℕ) → List (Entry × ℕ)
same_order chunks = chunks

abbrev verified_world : World
verified_world = (verify_all_with_control toy same_order hello_container hello_world).1

hello_verifies :
    verify_all_with_control toy same_order hello_container hello_world ≡ (ok tt, verified_world)
unfolding verify_all_with_control total_size files_by_offset sort_by_key only_files start_tracker
    verify_chunks check decrypt_chunk read_exact_at derive_file_key decrypt_aead bytes_eq report
    file_chunks
hello_verifies = refl

has_hello : get ℕ_discrete 2 hello_container.index.entries ≡ some hello_entry
unfolding get ℕ_discrete
has_hello = refl

verify_all_with_control_lem_example :
    (plain : Bytes) × (decrypt_chunk toy hello_container hello_entry 0 ≡ ok plain)
verify_all_with_control_lem_example =
    verify_all_with_control_lem toy same_order hello_container hello_world verified_world
      IsOrderOf-refl hello_verifies 2 hello_entry 0 has_hello refl (omega arith)

require_v2-read_header_example : require_v2 (λ bytes. none) numbered first_file ≡ ok tt
require_v2-read_header_example =
    require_v2-read_header (λ bytes. none) numbered first_file first_header
      read_header-serialize_header_example

open_slot-Opens : Opens toy hello_header old_password open_slot data_key
unfolding derive_kek decrypt_aead bytes_eq validate_argon2
open_slot-Opens = record {
  active = omega arith;
  kek = old_password;
  derived = refl;
  decrypted = refl;
  key_length = refl;
}

hello_bytes_there : read_exact_at header_bytes 0 hello_file ≡ ok hello_bytes
unfolding read_exact_at
hello_bytes_there = refl

hello_index_there : read_exact_at 17 header_bytes hello_file ≡ ok (1 ∷ tag data_key)
unfolding read_exact_at
hello_index_there = refl

hello_written : serialize_header numbered hello_header ≡ ok hello_bytes
unfolding serialize_header
hello_written = rw encode_hello refl

hello_safe : validate_header_basic hello_header (some (length hello_file)) ≡ ok tt
unfolding validate_header_basic bytes_eq validate_argon2
hello_safe = refl

hello_encoded : numbered.encode_index hello_index ≡ some (1 ∷ [])
hello_encoded = encoded (index_discrete hello_index hello_index)
  where
    encoded :
        (same : Dec (hello_index ≡ hello_index))
        → ite {C = Option Bytes} same (some (1 ∷ [])) none ≡ some (1 ∷ [])
    encoded (yes p) = refl
    encoded (no n) = absurd (n refl)

hello_derived : derive_index_key toy data_key hello_header.container_id ≡ ok data_key
unfolding derive_index_key
hello_derived = refl

hello_sealed :
    encrypt_aead toy data_key hello_header.index_nonce (index_aad toy hello_header) (1 ∷ [])
    ≡ ok (1 ∷ tag data_key)
unfolding encrypt_aead
hello_sealed = refl

hello_accepted_there : validate_index hello_header hello_index ≡ ok hello_valid
unfolding validate_index validate_name encrypted_file_size bytes_eq get insert ℕ_discrete
    sort_by_key
hello_accepted_there = refl

open_container_sealed_example :
    open_container toy numbered old_password noise noise hello_world
    ≡ (ok hello_container, hello_world)
open_container_sealed_example =
    open_container_sealed toy numbered toy-IsAead numbered_law hello_header old_password data_key
      hello_bytes data_key (1 ∷ []) (1 ∷ tag data_key) hello_index hello_valid noise noise
      hello_world hello_written hello_bytes_there hello_safe (inl (open_slot-Opens, omega arith))
      hello_encoded hello_derived hello_sealed hello_index_there hello_accepted_there
