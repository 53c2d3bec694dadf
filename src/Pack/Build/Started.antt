-- ===== src/Pack/Build/Started.antt =====
-- The start of the new container: its header and its index.
use cipher_fs.Operation.Positional.{read_exact_at_elsewhere, read_exact_at-written_at}
use cipher_fs.V2.Container.Storage.{length-serialize_header}
use cipher_fs.Operation.{pack_container, temporary_artifact}
use cipher_fs.V2.Types.{header_bytes}
use cipher_fs.Errors.{ok-inj, context-eq-ok, context, ok}
use cipher_fs.Operation.World.{
  write_all_at-eq-ok, written_at, write_all_at, lift-eq-ok, lift, read_exact_at, report, World,
}
use cipher_fs.Base.Words.{checked_add-eq-some, checked_add, Bytes}
use cipher_fs.Pack.Build.{set_len, write_start, Prepared}
use cipher_fs.V2.Container.{serialize_header, IsCodec, Codec}
use cipher_fs.V2.Crypto.{Crypto}
use cipher_fs.Base.{arith, inl, ◌∙◌, length, ◌+◌, ◌≡◌, ℕ, sym, ap}
use cipher_fs.Operation.World

module _ (c : Crypto) (codec : Codec) (law : IsCodec codec) where
  -- What the start of the file holds.
  pub record IsStarted (p : Prepared) (data_start : ℕ) (file : Bytes) : Type 0 where
    pub bytes : Bytes
    pub serialized : serialize_header codec p.header ≡ ok bytes
    pub start : data_start ≡ header_bytes + p.header.index_size
    pub header_there : read_exact_at header_bytes 0 file ≡ ok bytes
    pub index_there :
        read_exact_at (length p.encrypted_index) header_bytes file ≡ ok p.encrypted_index

  pub write_start-IsStarted :
      (temp_path : Bytes) (p : Prepared) (data_start : ℕ) (w w' : World)
      → write_start c codec temp_path p w ≡ (ok data_start, w')
      → IsStarted p data_start w'.file
  unfolding write_start
  write_start-IsStarted temp_path p data_start w w' h =
      let (_, h1, g1) =
        World.>>=-eq-ok (report (temporary_artifact pack_container temp_path)) _ w h in
      let w1 = (report (temporary_artifact pack_container temp_path) w).1 in
      let (start, h2, g2) =
        World.>>=-eq-ok
          (lift (
            context (checked_add header_bytes p.header.index_size)
              "Container data offset overflow"))
          _ w1 g1 in
      let (size, h3, g3) =
        World.>>=-eq-ok
          (lift (context (checked_add start p.header.data_size) "Container size overflow")) _ w1
          g2 in
      let (_, h4, g4) = World.>>=-eq-ok (set_len size) _ w1 g3 in
      let w4 = (set_len size w1).1 in
      let (bytes, h5, g5) = World.>>=-eq-ok (lift (serialize_header codec p.header)) _ w4 g4 in
      let (made, _) = lift-eq-ok (serialize_header codec p.header) w4 h5 in
      let (_, h6, g6) = World.>>=-eq-ok (write_all_at 0 bytes) _ w4 g5 in
      let w6 = (write_all_at 0 bytes w4).1 in
      let (_, h7, g7) = World.>>=-eq-ok (write_all_at header_bytes p.encrypted_index) _ w6 g6 in
      let w7 = (write_all_at header_bytes p.encrypted_index w6).1 in
      let (same, end) = lift-eq-ok (ok start) w7 g7 in
      let (sum, _) =
        checked_add-eq-some header_bytes p.header.index_size start
          (context-eq-ok _ _ (lift-eq-ok _ w1 h2).0) in
      let len = length-serialize_header codec law p.header bytes made in
      let first : w6.file ≡ written_at 0 bytes w4.file = write_all_at-eq-ok 0 bytes w4 h6 in
      let second : w7.file ≡ written_at header_bytes p.encrypted_index w6.file =
        write_all_at-eq-ok header_bytes p.encrypted_index w6 h7 in
      let last : w7.file ≡ w'.file = ap (λ (u : World). u.file) end in
      let header_first : read_exact_at header_bytes 0 w6.file ≡ ok bytes =
        ap (read_exact_at header_bytes 0) first
        ∙ ap (λ n. read_exact_at n 0 (written_at 0 bytes w4.file)) (sym len)
        ∙ read_exact_at-written_at 0 bytes w4.file in
      let header_kept =
        read_exact_at_elsewhere header_bytes 0 header_bytes p.encrypted_index w6.file
          (inl (omega arith)) header_first in
      record {
        bytes = bytes;
        serialized = made;
        start = sym (ok-inj same) ∙ sum;
        header_there = ap (read_exact_at header_bytes 0) (sym last ∙ second) ∙ header_kept;
        index_there =
            ap (read_exact_at (length p.encrypted_index) header_bytes) (sym last ∙ second)
            ∙ read_exact_at-written_at header_bytes p.encrypted_index w6.file;
      }
