-- ===== src/Uploads/Keys.antt =====
-- The keys of the table `upload_sessions`, and the queries by them.
use Prim.Native.String.{String}
use text.Mathlib.Text.{◌==◌ as str_eq}
use text.Mathlib.TextPositions.{eq_refl}
use file_share_manager.Prelude.{
  ℕ, ==_refl, Bool, true, false, ◌||◌, false≢true, List, [], ◌∷◌, ◌++◌, some, any, ◌≡◌, refl, sym,
  ap, ◌∙◌, subst, inl, inr, find_first, select, update_first, In, In-append_cases, select-In,
  Bool-cases, if◌then◌else◌,
}
use file_share_manager.Uploads.Store.{UploadSession, is_session}

-- The query for the key of a session.
abbrev pub same_key : UploadSession → UploadSession → Bool
same_key x = is_session x.workspace_id x.created_by x.id

-- No session has the key of one in front of it.
abbrev pub IsDistinct : List UploadSession → Type 0
IsDistinct [] = Unit
IsDistinct (x ∷ sessions) =
    ((y : UploadSession) → In y sessions → same_key y x ≡ false) × IsDistinct sessions

-- A change of a session that keeps its key.
pub record KeepsKey (f : UploadSession → UploadSession) : Type 0 where
  pub found :
      (w u : ℕ) (i : String) (z : UploadSession) → is_session w u i (f z) ≡ is_session w u i z
  pub finds : (x z : UploadSession) → same_key (f x) z ≡ same_key x z

some_injective : {A : Type 0} (x y : A) → some x ≡ some y → x ≡ y
some_injective x y h = cc

update_first-In :
    (p : UploadSession → Bool) (f : UploadSession → UploadSession) (y : UploadSession)
    (xs : List UploadSession)
    → In y (update_first p f xs)
    → (z : UploadSession) × (b : Bool) × In z xs × (y ≡ (if b then f z else z))
update_first-In p f y [] h = absurd h
update_first-In p f y (x ∷ xs) h = elim (Bool-cases (p x)) [
  | inl t ↦ elim (rw t at h) [ inl e ↦ (x, true, inl refl, e) | inr i ↦ (y, false, inr i, refl) ]
  | inr t ↦ elim (rw t at h) [
    | inl e ↦ (x, false, inl refl, e)
    | inr i ↦ let (z, b, j, c) = update_first-In p f y xs i in (z, b, inr j, c)
  ]
]

module _ (f : UploadSession → UploadSession) (keeps : KeepsKey f) where
  same_key-kept :
      (b : Bool) (z x : UploadSession) → same_key (if b then f z else z) x ≡ same_key z x
  same_key-kept true z x = keeps.finds z x
  same_key-kept false z x = refl

  pub update_first-IsDistinct :
      (p : UploadSession → Bool) (xs : List UploadSession)
      → IsDistinct xs
      → IsDistinct (update_first p f xs)
  update_first-IsDistinct p [] d = d
  update_first-IsDistinct p (x ∷ xs) (l, d) = elim (Bool-cases (p x)) [
    | inl t ↦ rw t (λ y i. keeps.found y.workspace_id y.created_by y.id x ∙ l y i, d)
    | inr t ↦ rw t (
      λ y i.
          let (z, b, j, e) = update_first-In p f y xs i in
          subst (λ (a : UploadSession). same_key a x ≡ false) (sym e) (same_key-kept b z x ∙ l z j),
      update_first-IsDistinct p xs d,
    )
  ]

  -- A query for another key finds what it found before the update.
  pub find_first-update_first :
      (w u : ℕ) (i : String) (p : UploadSession → Bool) (xs : List UploadSession)
      (x y : UploadSession)
      → find_first p xs ≡ some x
      → is_session w u i x ≡ false
      → find_first (is_session w u i) xs ≡ some y
      → find_first (is_session w u i) (update_first p f xs) ≡ some y
  find_first-update_first w u i p [] x y h d e = e
  find_first-update_first w u i p (z ∷ xs) x y h d e = elim (Bool-cases (p z)) [
    | inl t ↦
        let q = some_injective z x (rw t at h) in
        let n = ap (is_session w u i) q ∙ d in rw (t, keeps.found w u i z, n) (rw n at e)
    | inr t ↦ rw t (elim (Bool-cases (is_session w u i z)) [
      | inl n ↦ rw n (rw n at e)
      | inr n ↦ rw n (find_first-update_first w u i p xs x y (rw t at h) d (rw n at e))
    ])
  ]

same_key_refl : (x : UploadSession) → same_key x x ≡ true
unfolding is_session
same_key_refl x = rw (eq_refl x.id, ==_refl x.workspace_id, ==_refl x.created_by) refl

pub find_first-In :
    (xs : List UploadSession) (x : UploadSession)
    → IsDistinct xs
    → In x xs
    → find_first (same_key x) xs ≡ some x
find_first-In [] x d h = absurd h
find_first-In (y ∷ xs) x (l, d) (inl e) =
    subst (λ (a : UploadSession). find_first (same_key x) (a ∷ xs) ≡ some x) e
      (rw (same_key_refl x) refl)
find_first-In (y ∷ xs) x (l, d) (inr i) = rw (l x i) (find_first-In xs x d i)

pub select-IsDistinct :
    (p : UploadSession → Bool) (xs : List UploadSession) → IsDistinct xs → IsDistinct (select p xs)
select-IsDistinct p [] d = d
select-IsDistinct p (x ∷ xs) (l, d) = elim (Bool-cases (p x)) [
  | inl t ↦ rw t (λ y i. l y (select-In p y xs i).0, select-IsDistinct p xs d)
  | inr t ↦ rw t (select-IsDistinct p xs d)
]

neither : (a b : Bool) → (a || b) ≡ false → (a ≡ false) × (b ≡ false)
neither false b h = (refl, h)
neither true b h = absurd (false≢true (sym h))

other_key : (x z : UploadSession) → str_eq z.id x.id ≡ false → same_key x z ≡ false
unfolding is_session
other_key x z h = rw h refl

pub append-IsDistinct :
    (xs : List UploadSession) (x : UploadSession)
    → IsDistinct xs
    → any (λ (y : UploadSession). str_eq y.id x.id) xs ≡ false
    → IsDistinct (xs ++ x ∷ [])
append-IsDistinct [] x d h = (λ y i. absurd i, tt)
append-IsDistinct (z ∷ xs) x (l, d) h =
    let (n, m) = neither (str_eq z.id x.id) _ h in
    (
      λ y i. elim (In-append_cases y xs (x ∷ []) i) [
        | inl j ↦ l y j
        | inr (inl e) ↦
            subst (λ (a : UploadSession). same_key a z ≡ false) (sym e) (other_key x z n)
        | inr (inr j) ↦ absurd j
      ],
      append-IsDistinct xs x d m,
    )
