-- ===== src/Shares/Limits/Counts.antt =====
-- The download counts under sequences of the operations of server/internal/dao/share.go.
use Prim.Native.String.{String}
use file_share_manager.Prelude.{
  ok_injective, ℕ, suc, ◌==◌, Bool, true, not, List, [], ◌∷◌, ◌++◌, Option, some, ◌≡◌, ◌≢◌, refl,
  sym, ap, ◌∙◌, subst, ◌⊎◌, inl, inr, ok, ◌>>=◌, ◌>>◌, guard, or_fail, any, >>=-eq-ok, guard-eq-ok,
  or_fail-passed, guard-passed, In, In-append_cases, find_first_sound, update_where, eq_of_==,
  arith,
}
use file_share_manager.Shares.Store.{
  share_item, share_unsafe, share_restore_required, share_not_found, revoked, Share, ShareItem,
  Store, below_limit, get_by_token_hash, create, revoke, expire, is_due, is_revocable,
  with_revocation, has_keys_of, with_share, record_not_found, duplicated_key,
}
use file_share_manager.Shares.Downloads.{
  find_item, share_item_safe_for_external_download, is_archived, count_download, with_download,
  check_status, check_share, claim_download,
}
use file_share_manager.Shares.Limits.Rows.{
  IsWithin, IsLimited, IsWithin-suc, update_where-IsLimited,
}

abbrev counted : ℕ → Share → Share → Share
counted now x y = record y { download_count = suc x.download_count; updated_at = now }

limit_passed :
    (now : ℕ) (x : Share)
    → check_share now x ≡ ok tt
    → below_limit x.max_downloads x.download_count ≡ true
unfolding check_share
limit_passed now x h =
    let (_, _, h1) = >>=-eq-ok (check_status x.status) _ h in
    let (_, h2) = guard-passed _ _ _ h1 in guard-eq-ok _ _ h2

abbrev answer : Share → ShareItem → Store → Share × ShareItem × Store
answer x i u = (x, i, u)

final_state :
    (o : Option ShareItem) (a b : ShareItem → Bool) (x share : Share) (item : ShareItem)
    (t u : Store)
    → (or_fail o share_item >>= λ i.
        guard (a i) share_unsafe >> (guard (b i) share_restore_required >> ok (answer x i u)))
      ≡ ok (answer share item t)
    → u ≡ t
final_state o a b x share item t u h =
    let (i, _, h1) = or_fail-passed o share_item _ h in
    let (_, h2) = guard-passed (a i) _ _ h1 in let (_, h3) = guard-passed (b i) _ _ h2 in cc

-- What a download has passed, and what it changes.
claimed_share :
    (token_hash item_public_id : String) (now : ℕ) (s t : Store) (share : Share) (item : ShareItem)
    → claim_download token_hash item_public_id now s ≡ ok (share, item, t)
    → (x : Share) × (get_by_token_hash token_hash s ≡ some x)
      × (check_share now x ≡ ok tt)
      × (t.shares ≡ update_where (λ y. y.id == x.id) (counted now x) s.shares)
      × (t.next_share_id ≡ s.next_share_id)
unfolding claim_download
claimed_share token_hash item_public_id now s t share item h =
    let (x, e, h1) = or_fail-passed (get_by_token_hash token_hash s) share_not_found _ h in
    let (u, c, h2) = >>=-eq-ok (check_share now x) _ h1 in
    let final =
      final_state (find_item x.id item_public_id s) share_item_safe_for_external_download
        (λ i. not (is_archived i.storage_class)) (count_download now x) share item t
        (with_download now x s) h2 in
    (
      x,
      e,
      c,
      sym (ap (λ (r : Store). r.shares) final),
      sym (ap (λ (r : Store). r.next_share_id) final),
    )

count-IsWithin :
    (s : Store) (now : ℕ) (x : Share)
    → IsLimited s
    → In x s.shares
    → check_share now x ≡ ok tt
    → (y : Share) → In y s.shares
    → (y.id == x.id) ≡ true
    → IsWithin y.max_downloads (suc x.download_count)
count-IsWithin s now x limited i c y j e =
    subst (λ (z : Share). IsWithin z.max_downloads (suc x.download_count))
      (sym (limited.single y x j i (eq_of_== y.id x.id e)))
      (IsWithin-suc x.max_downloads x.download_count (limit_passed now x c))

-- A download that is granted leaves no share with more downloads than its limit.
pub claim_download-IsLimited :
    (token_hash item_public_id : String) (now : ℕ) (s t : Store) (share : Share) (item : ShareItem)
    → IsLimited s
    → claim_download token_hash item_public_id now s ≡ ok (share, item, t)
    → IsLimited t
unfolding get_by_token_hash
claim_download-IsLimited token_hash item_public_id now s t share item limited h =
    let (x, e, c, shares, next) = claimed_share token_hash item_public_id now s t share item h in
    let (i, _) = find_first_sound _ s.shares x e in
    update_where-IsLimited (λ y. y.id == x.id) (counted now x) s t limited (λ y. refl)
      (count-IsWithin s now x limited i c) shares next

revoke-IsLimited :
    (workspace_id id now : ℕ) (s t : Store)
    → IsLimited s
    → revoke workspace_id id now s ≡ ok t
    → IsLimited t
unfolding revoke
revoke-IsLimited workspace_id id now s t limited h =
    let (_, e) =
      guard-passed (any (is_revocable workspace_id id) s.shares) record_not_found
        (ok (with_revocation workspace_id id now s)) h in
    subst IsLimited (ok_injective _ _ e) (
      update_where-IsLimited (is_revocable workspace_id id)
        (λ x. record x { status = revoked; revoked_at = some now; updated_at = now }) s
        (with_revocation workspace_id id now s) limited (λ y. refl) (λ y i _. limited.within y i)
        refl refl)

expire-IsLimited : (now : ℕ) (s : Store) → IsLimited s → IsLimited (expire now s).1
unfolding expire
expire-IsLimited now s limited =
    update_where-IsLimited (is_due now) _ s (expire now s).1 limited (λ y. refl)
      (λ y i _. limited.within y i) refl refl

-- The operations of share.go that write; a new share starts within its limit.
pub data Step (s t : Store) : Type 0 where
  creates :
      (share : Share) (items : List ShareItem)
      → IsWithin share.max_downloads share.download_count
      → create share items s ≡ ok t
      → Step s t
  revokes : (workspace_id id now : ℕ) → revoke workspace_id id now s ≡ ok t → Step s t
  expires : (now : ℕ) → (expire now s).1 ≡ t → Step s t
  claims :
      (token_hash item_public_id : String) (now : ℕ) (share : Share) (item : ShareItem)
      → claim_download token_hash item_public_id now s ≡ ok (share, item, t)
      → Step s t

new_row :
    (share : Share) (s : Store) (x : Share)
    → In x (s.shares ++ record share { id = s.next_share_id } ∷ [])
    → In x s.shares ⊎ (x ≡ record share { id = s.next_share_id })
new_row share s x i = elim (In-append_cases x s.shares _ i) [
  | inl j ↦ inl j
  | inr (inl e) ↦ inr e
  | inr (inr n) ↦ absurd n
]

module _ (share : Share) (items : List ShareItem) (s : Store) (limited : IsLimited s) where
  fresh : (x : Share) → In x s.shares → x.id ≢ s.next_share_id
  fresh x i e = let l = limited.below_next x i in omega arith

  new_id : (x : Share) → x ≡ record share { id = s.next_share_id } → x.id ≡ s.next_share_id
  new_id x e = ap (λ (a : Share). a.id) e

  with_share-IsLimited :
      IsWithin share.max_downloads share.download_count → IsLimited (with_share share items s)
  with_share-IsLimited w = record {
    within = λ x i. elim (new_row share s x i) [
      | inl j ↦ limited.within x j
      | inr e ↦ subst (λ (z : Share). IsWithin z.max_downloads z.download_count) (sym e) w
    ];
    single = λ x y i j h. elim (new_row share s x i) [
      | inl k ↦ elim (new_row share s y j) [
        | inl l ↦ limited.single x y k l h
        | inr e ↦ absurd (fresh x k (h ∙ new_id y e))
      ]
      | inr d ↦ elim (new_row share s y j) [
        | inl l ↦ absurd (fresh y l (sym h ∙ new_id x d))
        | inr e ↦ d ∙ sym e
      ]
    ];
    below_next = λ x i. elim (new_row share s x i) [
      | inl j ↦ let l = limited.below_next x j in omega arith
      | inr e ↦ let n = new_id x e in omega arith
    ];
  }

create-IsLimited :
    (share : Share) (items : List ShareItem) (s t : Store)
    → IsLimited s
    → IsWithin share.max_downloads share.download_count
    → create share items s ≡ ok t
    → IsLimited t
unfolding create
create-IsLimited share items s t limited w h =
    let (_, e) =
      guard-passed (not (any (has_keys_of share) s.shares)) duplicated_key
        (ok (with_share share items s)) h in
    subst IsLimited (ok_injective _ _ e) (with_share-IsLimited share items s limited w)

Step-IsLimited : (s t : Store) → Step s t → IsLimited s → IsLimited t
Step-IsLimited s t (creates share items w h) l = create-IsLimited share items s t l w h
Step-IsLimited s t (revokes workspace_id id now h) l = revoke-IsLimited workspace_id id now s t l h
Step-IsLimited s t (expires now e) l = subst IsLimited e (expire-IsLimited now s l)
Step-IsLimited s t (claims token_hash item_public_id now share item h) l =
    claim_download-IsLimited token_hash item_public_id now s t share item l h

-- A run: any number of operations, one after the other.
pub data Run : Store → Store → Type 0 where
  done : (s : Store) → Run s s
  step : (s t u : Store) → Step s t → Run t u → Run s u

-- No sequence of creations, revocations, expiries and downloads takes a share above its limit, where
-- none is above it at first, the identities of shares are different and below the next one, and a
-- new share starts within its limit.
pub Run-IsLimited : (s t : Store) → Run s t → IsLimited s → IsLimited t
Run-IsLimited _ _ (done s) l = l
Run-IsLimited _ _ (step s t u st rest) l = Run-IsLimited t u rest (Step-IsLimited s t st l)
