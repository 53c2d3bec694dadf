-- ===== src/ReadOnly/ZeroRead.antt =====
-- `read` at offset zero for no bytes.
use cipher_fs.Base.{ℕ, ◌<◌, ◌≡◌, refl, some, [], ◌∷◌, leb, false, ℕ_discrete, arith, min, ◌-◌}
use cipher_fs.Base.Map
use cipher_fs.Errors.{message}
use cipher_fs.V2.Types.{Entry}
use cipher_fs.V2.Crypto.{Crypto}
use cipher_fs.V2.Index.{is_directory}
use cipher_fs.V2.Chunk.{OpenedContainer}
use cipher_fs.ReadOnly.ChunkCache.{Cache}
use cipher_fs.ReadOnly.{read, metadata, integrity_failure}

-- Reading no bytes at offset zero of a file that is not empty is an integrity error.
pub read_nothing :
    (c : Crypto) (opened : OpenedContainer) (id : ℕ) (e : Entry) (cache : Cache)
    → Map.get ℕ_discrete id opened.index.entries ≡ some e
    → is_directory e.kind ≡ false
    → 0 < e.size
    → read c opened id 0 0 cache ≡ (integrity_failure (message "Read range overflow" ∷ []), cache)
unfolding read metadata
read_nothing c opened id e cache found is_file positive =
    let before : leb e.size 0 ≡ false = ground arith in
    let none_left : min 0 (e.size - 0) ≡ 0 = omega arith in
    rw (found, is_file, before, none_left) refl
