-- ===== src/V2/Password/Writes.antt =====
-- The writes of a password change: what a header written over the old one lets in.
use cipher_fs.Base.{
  ℕ, ◌≤◌, ◌≡◌, refl, ap, sym, ◌∙◌, ◌⊎◌, inl, inr, none, some, ◌++◌, length, drop, arith,
  drop-append_left, length-append, length-drop,
}
use cipher_fs.Base.Words.{Bytes}
use cipher_fs.Errors.{Error, Result, ok, err}
use cipher_fs.Operation.World.{World, continue, Op, ◌>>=◌, ◌>>◌}
use cipher_fs.V2.Types.{Header, unlocked, header_bytes}
use cipher_fs.V2.Limits.{validate_header_basic}
use cipher_fs.V2.Crypto.{Crypto}
use cipher_fs.V2.Keys.{unlock}
use cipher_fs.V2.Keys.Unlocking.{NewestOpens, unlock_newest}
use cipher_fs.V2.Container.{Codec, IsCodec, read_header, write_header, serialize_header}
use cipher_fs.V2.Container.Storage.{
  unsynced, Written, written, refused, write_header_cases, length-serialize_header,
  read_header-serialize_header,
}

-- The container in this file opens to the key under the password.
pub record Holds (c : Crypto) (codec : Codec) (file password dek : Bytes) : Type 0 where
  pub header : Header
  pub read : read_header codec file ≡ ok header
  pub opens : unlock c header password ≡ ok (unlocked dek)

-- How a change that began with the file `before` may end: with access by the old or the new password,
-- by the new one if it reports success, and with everything behind the header as it was.
pub record IsFinal (c : Crypto) (codec : Codec) (before old new dek : Bytes)
    (out : Result (Unit {0}) × World) : Type 0 where
  pub access : Holds c codec out.1.file old dek ⊎ Holds c codec out.1.file new dek
  pub success : out.0 ≡ ok tt → Holds c codec out.1.file new dek
  pub body : drop header_bytes out.1.file ≡ drop header_bytes before

module _ (c : Crypto) (codec : Codec) (before old new dek : Bytes)
    (held : Holds c codec before old dek) where
  -- A failure that left the file alone.
  pub failed_unchanged :
      (e : Error) (w : World) → w.file ≡ before → IsFinal c codec before old new dek (err e, w)
  failed_unchanged e w same = record {
    access = inl (rw same held);
    success = λ p. cc;
    body = ap (drop header_bytes) same;
  }

  -- A step that leaves the file alone, before the rest.
  pub bind_unchanged :
      {A : Type 0} (m : Op A) (f : A → Op (Unit {0})) (w : World)
      → w.file ≡ before
      → (m w).1.file ≡ w.file
      → ((a : A) (w' : World)
          → (m w).0 ≡ ok a
          → w'.file ≡ before
          → IsFinal c codec before old new dek (f a w'))
      → IsFinal c codec before old new dek ((m >>= f) w)
  bind_unchanged {A} m f w same keeps rest = go (m w).0 refl
    where
      go : (r : Result A) → (m w).0 ≡ r → IsFinal c codec before old new dek ((m >>= f) w)
      go (ok a) p = rw (p, continue) (rest a (m w).1 p (keeps ∙ same))
      go (err e) p = rw (p, continue) (failed_unchanged e (m w).1 (keeps ∙ same))

module _ (c : Crypto) (codec : Codec) (law : IsCodec codec) where
  -- A container whose first bytes hold a valid header in which the newest slot opens.
  pub access_written :
      (h : Header) (bytes file password dek : Bytes)
      → serialize_header codec h ≡ ok bytes
      → header_bytes ≤ length file
      → validate_header_basic h (some (length file)) ≡ ok tt
      → validate_header_basic h none ≡ ok tt
      → NewestOpens c h password dek
      → Holds c codec (bytes ++ drop (length bytes) file) password dek
  access_written h bytes file password dek e big valid basic newest = record {
    header = h;
    read =
        rw (length-serialize_header codec law h bytes e)
          (read_header-serialize_header codec law h bytes file e big valid);
    opens = unlock_newest c h password dek basic newest;
  }

  body_written :
      (h : Header) (bytes file : Bytes)
      → serialize_header codec h ≡ ok bytes
      → drop header_bytes (bytes ++ drop (length bytes) file) ≡ drop header_bytes file
  body_written h bytes file e =
      let len = length-serialize_header codec law h bytes e in
      ap (λ (n : ℕ). drop n (bytes ++ drop (length bytes) file)) (sym len)
      ∙ drop-append_left bytes (drop (length bytes) file)
      ∙ ap (λ (n : ℕ). drop n file) len

  pub length_written :
      (h : Header) (bytes file : Bytes)
      → serialize_header codec h ≡ ok bytes
      → header_bytes ≤ length file
      → length (bytes ++ drop (length bytes) file) ≡ length file
  length_written h bytes file e big =
      let len = length-serialize_header codec law h bytes e in
      length-append bytes (drop (length bytes) file)
      ∙ omega (arith, length-drop (length bytes) file)

module _ (c : Crypto) (codec : Codec) (law : IsCodec codec) (before old new dek : Bytes)
    (held : Holds c codec before old dek) where
  -- The two writes of a change, given that either header would let the new password in.
  pub writes-IsFinal :
      (first second : Header) (w : World)
      → w.file ≡ before
      → ((bytes : Bytes)
          → serialize_header codec first ≡ ok bytes
          → Holds c codec (bytes ++ drop (length bytes) before) new dek)
      → ((bytes bytes' : Bytes)
          → serialize_header codec first ≡ ok bytes
          → serialize_header codec second ≡ ok bytes'
          → Holds c codec
              (bytes' ++ drop (length bytes') (bytes ++ drop (length bytes) before))
              new
              dek)
      → IsFinal c codec before old new dek
          ((write_header codec first >> write_header codec second) w)
  writes-IsFinal first second w same holds_1 holds_2 = go (write_header_cases codec first w)
    where
      go :
          Written codec first w (write_header codec first w)
          → IsFinal c codec before old new dek
              ((write_header codec first >> write_header codec second) w)
      go (refused e p f) =
          rw (p, continue)
            (failed_unchanged c codec before old new dek held e (write_header codec first w).1
              (f ∙ same))
      go (unsynced bytes s e p f) =
          let file' = f ∙ ap (λ (x : Bytes). bytes ++ drop (length bytes) x) same in
          rw (p, continue)
            (record {
              access = inr (rw file' (holds_1 bytes s));
              success = λ q. cc;
              body = ap (drop header_bytes) file' ∙ body_written c codec law first bytes before s;
            })
      go (written bytes s p f) =
          rw (p, continue) (go' (write_header_cases codec second (write_header codec first w).1))
        where
          w' : World
          w' = (write_header codec first w).1

          file' : w'.file ≡ bytes ++ drop (length bytes) before
          file' = f ∙ ap (λ (x : Bytes). bytes ++ drop (length bytes) x) same

          body' : drop header_bytes w'.file ≡ drop header_bytes before
          body' = ap (drop header_bytes) file' ∙ body_written c codec law first bytes before s

          go' :
              Written codec second w' (write_header codec second w')
              → IsFinal c codec before old new dek (write_header codec second w')
          go' (refused e p' f') = record {
            access = inr (rw (f', file') (holds_1 bytes s));
            success = λ q. cc;
            body = ap (drop header_bytes) f' ∙ body';
          }
          go' (unsynced bytes' s' e p' f') =
              let last = f' ∙ ap (λ (x : Bytes). bytes' ++ drop (length bytes') x) file' in
              record {
                access = inr (rw last (holds_2 bytes bytes' s s'));
                success = λ q. cc;
                body =
                    ap (drop header_bytes) f'
                    ∙ body_written c codec law second bytes' w'.file s'
                    ∙ body';
              }
          go' (written bytes' s' p' f') =
              let last = f' ∙ ap (λ (x : Bytes). bytes' ++ drop (length bytes') x) file' in
              record {
                access = inr (rw last (holds_2 bytes bytes' s s'));
                success = λ q. rw last (holds_2 bytes bytes' s s');
                body =
                    ap (drop header_bytes) f'
                    ∙ body_written c codec law second bytes' w'.file s'
                    ∙ body';
              }
