-- ===== src/Uploads/Reserved.antt =====
-- The bytes that the open sessions of a workspace have reserved.
use file_share_manager.Prelude.{
  ℕ, ◌+◌, ◌==◌, Bool, ◌&&◌, not, List, [], ◌∷◌, ◌++◌, some, ◌≡◌, subst, inl, inr, find_first,
  update_first, In, Bool-cases, arith, if◌then◌else◌,
}
use file_share_manager.Uploads.Store.{UploadSession, Workspace, Store, is_closed}
use file_share_manager.Uploads.Keys.{IsDistinct}

-- What a session counts in a workspace.
abbrev pub open_size : ℕ → UploadSession → ℕ
open_size w x = if x.workspace_id == w && not (is_closed x.status) then x.total_size else 0

abbrev pub reserved_for : ℕ → List UploadSession → ℕ
reserved_for w [] = 0
reserved_for w (x ∷ sessions) = open_size w x + reserved_for w sessions

some_injective : {A : Type 0} (x y : A) → some x ≡ some y → x ≡ y
some_injective x y h = cc

-- The update of one session changes the sum by that session.
pub reserved_for-update_first :
    (w : ℕ) (p : UploadSession → Bool) (f : UploadSession → UploadSession) (xs : List UploadSession)
    (x : UploadSession)
    → find_first p xs ≡ some x
    → reserved_for w (update_first p f xs) + open_size w x ≡ reserved_for w xs + open_size w (f x)
reserved_for-update_first w p f [] x h = cc
reserved_for-update_first w p f (y ∷ xs) x h = elim (Bool-cases (p y)) [
  | inl t ↦ rw t (
      subst
        (λ z.
          open_size w (f y) + reserved_for w xs + open_size w z
          ≡ open_size w y + reserved_for w xs + open_size w (f z))
        (some_injective y x (rw t at h))
        (swap (open_size w (f y)) (reserved_for w xs) (open_size w y)))
  | inr t ↦ rw t (
      behind (open_size w y) (reserved_for w (update_first p f xs)) (open_size w x)
        (reserved_for w xs) (open_size w (f x)) (reserved_for-update_first w p f xs x (rw t at h)))
]
  where
    swap : (a r b : ℕ) → a + r + b ≡ b + r + a
    swap a r b = omega arith

    behind : (o u x r g : ℕ) → u + x ≡ r + g → o + u + x ≡ o + r + g
    behind o u x r g e = omega arith

add_zero : (a : ℕ) → a + 0 ≡ 0 + a
add_zero a = omega arith

assoc : (a b c : ℕ) → a + (b + c) ≡ a + b + c
assoc a b c = omega arith

pub reserved_for-append :
    (w : ℕ) (xs : List UploadSession) (x : UploadSession)
    → reserved_for w (xs ++ x ∷ []) ≡ reserved_for w xs + open_size w x
reserved_for-append w [] x = add_zero (open_size w x)
reserved_for-append w (y ∷ xs) x =
    rw (reserved_for-append w xs x) (assoc (open_size w y) (reserved_for w xs) (open_size w x))

-- Every workspace has reserved what its open sessions need, and the sessions have different keys.
pub record IsBalanced (s : Store) : Type 0 where
  pub balanced :
      (w : Workspace) → In w s.workspaces → w.reserved_bytes ≡ reserved_for w.id s.sessions
  pub distinct : IsDistinct s.sessions
