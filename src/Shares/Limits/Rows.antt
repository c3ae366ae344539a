-- ===== src/Shares/Limits/Rows.antt =====
-- An invariant of the table `shares`, and updates of its rows.
use file_share_manager.Prelude.{
  ℕ, suc, ◌≤◌, ◌<◌, Bool, true, Option, none, some, ◌≡◌, refl, sym, ap, ◌∙◌, subst, inl, inr, In,
  update_where, update_where-In, Bool-cases, arith, if◌then◌else◌,
}
use file_share_manager.Shares.Store.{Share, Store, below_limit}

-- The count of a share does not exceed its limit.
abbrev pub IsWithin : Option ℕ → ℕ → Type 0
IsWithin none count = Unit
IsWithin (some limit) count = count ≤ limit

-- No share has more downloads than its limit; an identity names one row and is below the next one.
pub record IsLimited (s : Store) : Type 0 where
  pub within : (x : Share) → In x s.shares → IsWithin x.max_downloads x.download_count
  pub single : (x y : Share) → In x s.shares → In y s.shares → x.id ≡ y.id → x ≡ y
  pub below_next : (x : Share) → In x s.shares → x.id < s.next_share_id

pub IsWithin-suc : (limit : Option ℕ) (n : ℕ) → below_limit limit n ≡ true → IsWithin limit (suc n)
IsWithin-suc none n h = tt
IsWithin-suc (some limit) n h = ground arith

-- An update that keeps identities, and limits where it changes a row.
module _ (p : Share → Bool) (f : Share → Share) (s t : Store) (limited : IsLimited s)
    (same : (x : Share) → (f x).id ≡ x.id)
    (keeps : (x : Share)
      → In x s.shares
      → p x ≡ true
      → IsWithin (f x).max_downloads (f x).download_count)
    (updated : t.shares ≡ update_where p f s.shares)
    (next : t.next_share_id ≡ s.next_share_id) where
  changed : Share → Share
  changed x = if p x then f x else x

  old_row : (y : Share) → In y t.shares → (x : Share) × In x s.shares × (y ≡ changed x)
  unfolding changed
  old_row y i = update_where-In p f y s.shares (subst (In y) updated i)

  changed_id : (x : Share) → (changed x).id ≡ x.id
  unfolding changed
  changed_id x = elim (Bool-cases (p x)) [ inl t ↦ rw t (same x) | inr t ↦ rw t refl ]

  changed-IsWithin :
      (x : Share) → In x s.shares → IsWithin (changed x).max_downloads (changed x).download_count
  unfolding changed
  changed-IsWithin x j = elim (Bool-cases (p x)) [
    | inl t ↦ rw t (keeps x j t)
    | inr t ↦ rw t (limited.within x j)
  ]

  row_id : (y x : Share) → y ≡ changed x → y.id ≡ x.id
  row_id y x c = ap (λ (a : Share). a.id) c ∙ changed_id x

  pub update_where-IsLimited : IsLimited t
  update_where-IsLimited = record {
    within = λ y i.
        let (x, j, c) = old_row y i in
        subst (λ (z : Share). IsWithin z.max_downloads z.download_count) (sym c)
          (changed-IsWithin x j);
    single = λ y z i j h.
        let (x, k, c) = old_row y i in
        let (w, l, d) = old_row z j in
        c ∙ ap changed (limited.single x w k l (sym (row_id y x c) ∙ h ∙ row_id z w d)) ∙ sym d;
    below_next = λ y i.
        let (x, j, c) = old_row y i in
        subst (λ n. y.id < n) (sym next)
          (subst (λ n. n < s.next_share_id) (sym (row_id y x c)) (limited.below_next x j));
  }
