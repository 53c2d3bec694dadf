-- ===== src/Examples/Chunks.antt =====
-- A file of five bytes, encrypted into a container, decrypted and read.
use cipher_fs.Base.Orders.{IsOrderOf-refl}
use cipher_fs.V2.Names.{validate_name}
use cipher_fs.Base.Sort.{sort_by_key}
use cipher_fs.V2.Crypto.{encrypt_aead, derive_file_key}
use cipher_fs.Base.{
  ℕ, ◌≡◌, ◌<◌, refl, [], ◌∷◌, replicate, some, arith, false, take, drop, ℕ_discrete, zero, suc,
}
use cipher_fs.Base.Words.{bytes_eq, Bytes, codes}
use cipher_fs.Base.Map
use cipher_fs.Errors.{message, ok}
use cipher_fs.Operation.{encrypt}
use cipher_fs.Operation.World.{read_exact_at, report, write_all_at, check, World}
use cipher_fs.Operation.Progress.{advance, ProgressTracker}
use cipher_fs.ReadOnly.ZeroRead.{read_nothing}
use cipher_fs.V2.Types.{Entry, Index, ValidatedIndex}
use cipher_fs.V2.Limits.{encrypted_file_size}
use cipher_fs.V2.Limits.ChunkLayout.{plain_len}
use cipher_fs.V2.Index.{validate_index}
use cipher_fs.V2.Index.Soundness.{validate_index_file_ids}
use cipher_fs.V2.Chunk.{chunk_offset, OpenedContainer, decrypt_chunk}
use cipher_fs.Pack.Encrypt.{
  seal_chunk, encrypt_chunks, encrypt_chunk, SourceFile, encrypt_source_file,
}
use cipher_fs.Pack.Encrypt.RoundTrip.{opened_at, decrypt_chunk-encrypt_source_file}
use cipher_fs.ReadOnly.{file_node, directory_node, Node, integrity_failure, done, read}
use cipher_fs.ReadOnly.ChunkCache.{empty_cache}
use cipher_fs.ReadOnly.Coherence.{IsCoherent}
use cipher_fs.ReadOnly.Ranges.{chunk_of, read_lem}
use cipher_fs.Examples.{toy, toy-IsAead}
use cipher_fs.Examples.Indexes.{plain_header, root, file_at}
use cipher_fs.Examples.Slots.{data_key}

abbrev pub hello : Bytes
hello = codes "hello"

abbrev pub hello_entry : Entry
hello_entry = file_at 2 1 (codes "a.txt") 1 5 0

abbrev pub hello_index : Index
hello_index = record { entries = root ∷ hello_entry ∷ [] }

abbrev pub hello_valid : ValidatedIndex
hello_valid = record { entries = (1, root) ∷ (2, hello_entry) ∷ []; children = (1, 2 ∷ []) ∷ [] }

pub hello_accepted : validate_index (plain_header 21 2) hello_index ≡ ok hello_valid
unfolding validate_index bytes_eq validate_name encrypted_file_size Map.get Map.insert ℕ_discrete
    sort_by_key
hello_accepted = refl

abbrev pub hello_source : SourceFile
hello_source = record { content = some hello; changed_before = false; changed_after = false }

abbrev start_world : World
start_world = record { file = replicate 30 0; refusals = []; cancels = []; events = [] }

abbrev start_tracker : ProgressTracker
start_tracker = record { phase = encrypt; total = 5; completed = 0 }

abbrev end_tracker : ProgressTracker
end_tracker = record { phase = encrypt; total = 5; completed = 5 }

abbrev end_world : World
end_world =
    (encrypt_source_file toy (plain_header 21 2) hello_entry 100 data_key hello_source
      (λ order. order) start_tracker start_world).1

encrypted :
    encrypt_source_file toy
      (plain_header 21 2)
      hello_entry
      100
      data_key
      hello_source
      (λ order. order)
      start_tracker
      start_world
    ≡ (ok end_tracker, end_world)
unfolding encrypt_source_file derive_file_key encrypt_chunks encrypt_chunk check seal_chunk
    read_exact_at encrypt_aead chunk_offset write_all_at report advance
encrypted = refl

hello_sizes : encrypted_file_size 5 ≡ ok (1, 21)
unfolding encrypted_file_size
hello_sizes = refl

abbrev pub hello_opened : OpenedContainer
hello_opened = opened_at end_world.file (plain_header 21 2) hello_valid data_key 100

decrypt_chunk-encrypt_source_file_example :
    decrypt_chunk toy hello_opened hello_entry 0 ≡ ok (take (plain_len 5 0) (drop 0 hello))
decrypt_chunk-encrypt_source_file_example =
    decrypt_chunk-encrypt_source_file toy-IsAead (plain_header 21 2) hello_valid hello_entry
      data_key hello hello_source 100 0 (λ order. order) start_tracker end_tracker start_world
      end_world encrypted refl refl hello_sizes (omega arith) IsOrderOf-refl

serves_hello :
    (i : ℕ) → i < 1 → decrypt_chunk toy hello_opened hello_entry i ≡ ok (chunk_of hello i)
serves_hello zero h = decrypt_chunk-encrypt_source_file_example
serves_hello (suc i) h = absurd (omega arith)

has_hello : Map.get ℕ_discrete 2 hello_valid.entries ≡ some hello_entry
unfolding Map.get ℕ_discrete
has_hello = refl

nothing_cached : IsCoherent toy hello_opened (empty_cache 100)
unfolding IsCoherent Map.get
nothing_cached id e is i v h = cc

read_lem_example :
    ((read toy hello_opened 2 1 3 (empty_cache 100)).0 ≡ done (take 3 (drop 1 hello)))
    × IsCoherent toy hello_opened (read toy hello_opened 2 1 3 (empty_cache 100)).1
read_lem_example =
    read_lem toy hello_opened
      (validate_index_file_ids (plain_header 21 2) hello_index hello_valid hello_accepted) 2
      hello_entry hello (has_hello, refl) serves_hello 1 3 (empty_cache 100) refl hello_sizes
      (omega arith) nothing_cached

read_nothing_example :
    read toy hello_opened 2 0 0 (empty_cache 100)
    ≡ (integrity_failure (message "Read range overflow" ∷ []), empty_cache 100)
read_nothing_example =
    read_nothing toy hello_opened 2 hello_entry (empty_cache 100) has_hello refl (omega arith)

validate_index_file_ids_example : hello_entry.id ≡ hello_entry.id
validate_index_file_ids_example =
    validate_index_file_ids (plain_header 21 2) hello_index hello_valid hello_accepted 2 2
      hello_entry hello_entry has_hello has_hello refl refl refl

abbrev root_node : Node
root_node = record { id = 1; parent_id = 1; name = []; kind = directory_node; size = 0 }

abbrev text_node : Node
text_node = record { id = 2; parent_id = 1; name = codes "a.txt"; kind = file_node; size = 5 }
