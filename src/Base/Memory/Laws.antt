-- ===== src/Base/Memory/Laws.antt =====
-- What the moves of bytes keep of a buffer, and where its text ends.
use motor_test.Base.{
  ℕ, zero, suc, ◌+◌, ◌-◌, ◌≤◌, ◌<◌, ◌≡◌, ◌≢◌, refl, ap, ◌∙◌, arith, lt→ltb, le→leb,
}
use motor_test.Base.{List, [], ◌∷◌, ◌++◌, All, map, length, length-append, get_or, set, some}
use mathlib.Core.List.{append_assoc}
use motor_test.Base.Memory.{
  replicate, take, drop, length-take, length-drop, get_or-append, get_or-drop, length-set,
}
use motor_test.Base.Memory.{get_or-set_other, memmove, store_at, memcpy, strlen}

-- The two buffers are equally long, and agree from index `k` on.
pub record SameFrom (k : ℕ) (buf out : List ℕ) : Type 0 where
  pub same_length : length out ≡ length buf
  pub same_from : (i d : ℕ) → k ≤ i → get_or out i d ≡ get_or buf i d

pub SameFrom-refl : (k : ℕ) (buf : List ℕ) → SameFrom k buf buf
SameFrom-refl k buf = record { same_length = refl; same_from = λ i d h. refl }

pub SameFrom-trans :
    (j k l : ℕ) (a b c : List ℕ) → j ≤ l → k ≤ l → SameFrom j a b → SameFrom k b c → SameFrom l a c
SameFrom-trans j k l a b c p q s t = record {
  same_length = t.same_length ∙ s.same_length;
  same_from = λ i d h. t.same_from i d (omega arith) ∙ s.same_from i d (omega arith);
}

-- A buffer whose front is replaced by as many bytes.
front-SameFrom :
    (k : ℕ) (front buf : List ℕ)
    → length front ≡ k
    → k ≤ length buf
    → SameFrom k buf (front ++ drop k buf)
front-SameFrom k front buf e h = record {
  same_length = omega (arith, length-append front (drop k buf), length-drop k buf);
  same_from = λ i d le.
      let back : k + (i - length front) ≡ i = omega arith in
      get_or-append front (drop k buf) i d (omega arith)
      ∙ get_or-drop k buf (i - length front) d
      ∙ ap (λ j. get_or buf j d) back;
}

pub memmove_lem :
    (buf : List ℕ) (dst src n : ℕ)
    → src + n ≤ length buf
    → dst + n ≤ length buf
    → (out : List ℕ) × (memmove buf dst src n ≡ some out) × SameFrom (dst + n) buf out
unfolding memmove
memmove_lem buf dst src n s t =
    let middle = take n (drop src buf) in
    let sized : length (take dst buf ++ middle) ≡ dst + n = omega (
      arith,
      length-append (take dst buf) middle,
      length-take dst buf (omega arith),
      length-take n (drop src buf) (omega (arith, length-drop src buf)),
    ) in
    (
      (take dst buf ++ middle) ++ drop (dst + n) buf,
      rw (le→leb _ _ s, le→leb _ _ t, append_assoc) refl,
      front-SameFrom (dst + n) (take dst buf ++ middle) buf sized t,
    )

pub store_at_lem :
    (buf : List ℕ) (i c : ℕ)
    → i < length buf
    → (out : List ℕ) × (store_at buf i c ≡ some out) × SameFrom (suc i) buf out
unfolding store_at
store_at_lem buf i c h = (
  set buf i c,
  rw (lt→ltb _ _ h) refl,
  record {
    same_length = length-set buf i c;
    same_from = λ j d le. get_or-set_other buf i j c d (omega arith);
  },
)

get_or-take :
    (n : ℕ) (src rest : List ℕ) (i d : ℕ)
    → n ≤ length src
    → i < n
    → get_or (take n src ++ rest) i d ≡ get_or src i d
get_or-take zero src rest i d h l = absurd (omega arith)
get_or-take (suc n) [] rest i d h l = absurd (omega arith)
get_or-take (suc n) (x ∷ src) rest zero d h l = refl
get_or-take (suc n) (x ∷ src) rest (suc i) d h l =
    get_or-take n src rest i d (omega arith) (omega arith)

pub memcpy_lem :
    (buf src : List ℕ) (n : ℕ)
    → n ≤ length src
    → n ≤ length buf
    → (out : List ℕ) × (memcpy buf src n ≡ some out)
      × SameFrom n buf out
      × ((i d : ℕ) → i < n → get_or out i d ≡ get_or src i d)
unfolding memcpy
memcpy_lem buf src n s t = (
  take n src ++ drop n buf,
  rw (le→leb _ _ s, le→leb _ _ t) refl,
  front-SameFrom n (take n src) buf (length-take n src s) t,
  λ i d l. get_or-take n src (drop n buf) i d s l,
)

-- A 0 at index `k` ends the text there or before.
pub strlen_lem :
    (buf : List ℕ) (k : ℕ) → get_or buf k 1 ≡ 0 → (n : ℕ) × (strlen buf ≡ some n) × (n ≤ k)
unfolding strlen
strlen_lem [] k h = absurd (omega arith)
strlen_lem (zero ∷ cs) k h = (0, refl, omega arith)
strlen_lem (suc c ∷ cs) zero h = absurd (omega arith)
strlen_lem (suc c ∷ cs) (suc k) h =
    let rest = strlen_lem cs k h in (suc rest.0, rw (rest.1) refl, omega (arith, rest.2))

-- Text without a 0, before one.
pub strlen-append :
    (text rest : List ℕ) → All (λ c. c ≢ 0) text → strlen (text ++ 0 ∷ rest) ≡ some (length text)
unfolding strlen
strlen-append [] rest h = refl
strlen-append (zero ∷ text) rest h = absurd (h.0 refl)
strlen-append (suc c ∷ text) rest h = rw (strlen-append text rest h.1) refl

module _ {ℓ} {A : Type ℓ} where
  pub replicate_snoc : (k : ℕ) (x : A) → replicate (suc k) x ≡ replicate k x ++ x ∷ []
  replicate_snoc zero x = refl
  replicate_snoc (suc k) x = ap (x ∷◌) (replicate_snoc k x)

  pub take_all : (xs : List A) → take (length xs) xs ≡ xs
  take_all [] = refl
  take_all (x ∷ xs) = ap (x ∷◌) (take_all xs)

  pub get_or-set_same :
      (xs : List A) (i : ℕ) (v d : A) → i < length xs → get_or (set xs i v) i d ≡ v
  get_or-set_same [] i v d h = absurd (omega arith)
  get_or-set_same (x ∷ xs) zero v d h = refl
  get_or-set_same (x ∷ xs) (suc i) v d h = get_or-set_same xs i v d (omega arith)

  pub get_or-snoc :
      (xs : List A) (v : A) (i : ℕ) (d : A) → length xs ≡ i → get_or (xs ++ v ∷ []) i d ≡ v
  get_or-snoc [] v zero d h = refl
  get_or-snoc [] v (suc i) d h = absurd (omega arith)
  get_or-snoc (x ∷ xs) v zero d h = absurd (omega arith)
  get_or-snoc (x ∷ xs) v (suc i) d h = get_or-snoc xs v i d (omega arith)

  pub All-get_or {κ} :
      (P : A → Type κ) (xs : List A) (i : ℕ) (d : A) → All P xs → i < length xs → P (get_or xs i d)
  All-get_or P [] i d h l = absurd (omega arith)
  All-get_or P (x ∷ xs) zero d h l = h.0
  All-get_or P (x ∷ xs) (suc i) d h l = All-get_or P xs i d h.1 (omega arith)

  pub All-drop {κ} : (P : A → Type κ) (n : ℕ) (xs : List A) → All P xs → All P (drop n xs)
  All-drop P zero xs h = h
  All-drop P (suc n) [] h = h
  All-drop P (suc n) (x ∷ xs) h = All-drop P n xs h.1

  pub get_or-front :
      (xs ys : List A) (i : ℕ) (d : A) → i < length xs → get_or (xs ++ ys) i d ≡ get_or xs i d
  get_or-front [] ys i d l = absurd (omega arith)
  get_or-front (x ∷ xs) ys zero d l = refl
  get_or-front (x ∷ xs) ys (suc i) d l = get_or-front xs ys i d (omega arith)

module _ {ℓ κ} {A : Type ℓ} {B : Type κ} (f : A → B) where
  pub length-map : (xs : List A) → length (map f xs) ≡ length xs
  length-map [] = refl
  length-map (x ∷ xs) = ap suc (length-map xs)

  pub get_or-map :
      (xs : List A) (i : ℕ) (d : A) (e : B)
      → i < length xs
      → get_or (map f xs) i e ≡ f (get_or xs i d)
  get_or-map [] i d e l = absurd (omega arith)
  get_or-map (x ∷ xs) zero d e l = refl
  get_or-map (x ∷ xs) (suc i) d e l = get_or-map xs i d e (omega arith)
