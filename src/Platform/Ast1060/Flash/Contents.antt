-- ===== src/Platform/Ast1060/Flash/Contents.antt =====
-- The contents of a flash chip, as a function of the address.
use mcu_runtime.Base.{
  ℕ, zero, suc, ◌+◌, ◌-◌, ◌≤◌, ◌<◌, ◌≡◌, refl, ap, ◌∙◌, ◌⊎◌, ◌&&◌, if◌then◌else◌, ltb, leb, List,
  [], ◌∷◌, length, take, drop, get_or, length-take, length-drop, get_or-take, get_or-drop, arith,
}

-- The bytes `bytes` from the address `p` on, over the contents `f`.
abbrev pub overlay : (ℕ → ℕ) → ℕ → List ℕ → ℕ → ℕ
overlay f p bytes a = if leb p a && ltb a (p + length bytes) then get_or bytes (a - p) 0xff else f a

-- `n` bytes of the contents from `p` on.
abbrev pub bytes_from : (ℕ → ℕ) → ℕ → ℕ → List ℕ
bytes_from f p zero = []
bytes_from f p (suc n) = f p ∷ bytes_from f (p + 1) n

pub overlay_outside :
    (f : ℕ → ℕ) (p : ℕ) (bytes : List ℕ) (a : ℕ)
    → (a < p) ⊎ (p + length bytes ≤ a)
    → overlay f p bytes a ≡ f a
overlay_outside f p bytes a h = ground arith

pub overlay-split :
    (f g : ℕ → ℕ) (p n : ℕ) (bytes : List ℕ) (a : ℕ)
    → n ≤ length bytes
    → g a ≡ overlay f p (take n bytes) a
    → overlay g (p + n) (drop n bytes) a ≡ overlay f p bytes a
overlay-split f g p n bytes a h e = ground (
  arith,
  length-take n bytes h,
  length-drop n bytes,
  get_or-take n (a - p) bytes 0xff,
  get_or-drop n (a - (p + n)) bytes 0xff,
)

pub bytes_from-ext :
    (f g : ℕ → ℕ) (p n : ℕ)
    → ((a : ℕ) → p ≤ a → a < p + n → f a ≡ g a)
    → bytes_from f p n ≡ bytes_from g p n
bytes_from-ext f g p zero h = refl
bytes_from-ext f g p (suc n) h =
    let e = h p (omega arith) (omega arith) in
    rw (e, bytes_from-ext f g (p + 1) n (λ a l u. h a (omega arith) (omega arith)))

bytes_from-get_or :
    (p : ℕ) (bytes : List ℕ) → bytes_from (λ a. get_or bytes (a - p) 0xff) p (length bytes) ≡ bytes
bytes_from-get_or p [] = refl
bytes_from-get_or p (x ∷ xs) =
    let e : p - p ≡ 0 = omega arith in
    rw e (
      ap (λ (ys : List ℕ). x ∷ ys)
        (bytes_from-ext (λ a. get_or (x ∷ xs) (a - p) 0xff) (λ a. get_or xs (a - (p + 1)) 0xff)
            (p + 1) (length xs) (λ a l u. let d : a - p ≡ suc (a - (p + 1)) = omega arith in rw d)
          ∙ bytes_from-get_or (p + 1) xs))

-- What was laid over the contents is read back.
pub bytes_from-overlay :
    (f : ℕ → ℕ) (p : ℕ) (bytes : List ℕ) → bytes_from (overlay f p bytes) p (length bytes) ≡ bytes
bytes_from-overlay f p bytes =
    bytes_from-ext (overlay f p bytes) (λ a. get_or bytes (a - p) 0xff) p (length bytes)
      (λ a l u. ground arith)
    ∙ bytes_from-get_or p bytes
