-- ===== src/Manifest/Keys.antt =====
-- Key descriptors and attestation descriptors, and their validation
-- (app-rot/src/manifest/mod.rs).
use mcu_runtime.Base.{
  ℕ, ◌+◌, ◌<◌, ◌≡◌, ◌↔◌, Bool, true, false, ◌&&◌, not, if◌then◌else◌, ◌==◌, Option, is_none, List,
  find, FirstOf, find-FirstOf, Result, ok, err, arith,
}
use mcu_runtime.Base.Words.{IsU32, checked_add}
use mcu_runtime.Manifest.{HashAlgorithm, KeyKind, root, pfm, afm, recovery}

pub record KeyDescriptor : Type 0 where
  pub kind : KeyKind
  pub index : ℕ
  pub hash : HashAlgorithm
  pub digest_offset : ℕ
  pub digest_size : ℕ

unfoldable has_digest : KeyDescriptor → Bool
has_digest k = not (k.digest_size == 0)

unfoldable checked_digest_end : KeyDescriptor → Option ℕ
checked_digest_end k = checked_add k.digest_offset k.digest_size

pub record KeyManifest : Type 0 where
  pub keys : List KeyDescriptor

-- The derived `PartialEq` of `KeyKind`.
abbrev same_kind : KeyKind → KeyKind → Bool
same_kind root root = true
same_kind pfm pfm = true
same_kind afm afm = true
same_kind recovery recovery = true
same_kind _ _ = false

-- The closure of `KeyManifest::find`.
abbrev is_key : KeyKind → ℕ → KeyDescriptor → Bool
is_key kind index k = same_kind k.kind kind && k.index == index

unfoldable pub find_key : KeyManifest → KeyKind → ℕ → Option KeyDescriptor
find_key m kind index = find (is_key kind index) m.keys

pub record AfmDescriptor : Type 0 where
  pub offset : ℕ
  pub size : ℕ
  pub svn : ℕ
  pub hash : HashAlgorithm

-- `AfmDescriptor::checked_end`.
unfoldable afm_end : AfmDescriptor → Option ℕ
afm_end a = checked_add a.offset a.size

pub data ManifestKeyError : Type 0 where
  empty_digest digest_overflow : ManifestKeyError

pub data AfmError : Type 0 where
  empty_descriptor overflow : AfmError

unfoldable pub validate_key_descriptor : KeyDescriptor → Result (Unit {0}) ManifestKeyError
unfolding has_digest checked_digest_end
validate_key_descriptor k =
    if not (has_digest k)
    then err empty_digest
    else if is_none (checked_digest_end k)
    then err digest_overflow
    else ok tt

unfoldable pub validate_afm_descriptor : AfmDescriptor → Result (Unit {0}) AfmError
unfolding afm_end
validate_afm_descriptor a =
    if a.size == 0
    then err empty_descriptor
    else if is_none (afm_end a)
    then err overflow
    else ok tt

-- A key descriptor is accepted exactly when its digest is not empty and ends within 32 bits; an
-- attestation descriptor exactly when its range is not empty and ends within 32 bits.
pub descriptors_iff :
    (k : KeyDescriptor) (a : AfmDescriptor)
    → ((validate_key_descriptor k ≡ ok tt)
        ↔ ((0 < k.digest_size) × IsU32 (k.digest_offset + k.digest_size)))
      × ((validate_afm_descriptor a ≡ ok tt) ↔ ((0 < a.size) × IsU32 (a.offset + a.size)))
unfolding validate_key_descriptor validate_afm_descriptor
descriptors_iff k a = ground arith

-- The descriptor has this kind and index.
abbrev pub Fits : KeyKind → ℕ → KeyDescriptor → Type 0
Fits kind index k = (k.kind ≡ kind) × (k.index ≡ index)

is_key_iff :
    (kind : KeyKind) (index : ℕ) (k : KeyDescriptor)
    → (is_key kind index k ≡ true) ↔ Fits kind index k
is_key_iff kind index k = ground arith

-- `find` returns the first key of the manifest with the given kind and index, and none exactly
-- where no key has them.
pub find_key_first :
    (m : KeyManifest) (kind : KeyKind) (index : ℕ)
    → FirstOf (Fits kind index) m.keys (find_key m kind index)
unfolding find_key
find_key_first m kind index =
    find-FirstOf (is_key kind index) (Fits kind index) m.keys (is_key_iff kind index)
