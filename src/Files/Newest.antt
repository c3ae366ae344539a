-- ===== src/Files/Newest.antt =====
-- The newest version of a file, and `RestoreVersion` of server/internal/dao/file.go.
use file_share_manager.Prelude.{
  ℕ, ◌+◌, ◌≤◌, ◌<◌, ◌==◌, ltb, Bool, true, ◌&&◌, List, [], ◌∷◌, ◌++◌, Option, none, some, ◌≡◌, refl,
  sym, ap, ◌∙◌, subst, inl, inr, Result, ok, or_fail-passed, guard-passed, find_first,
  find_first_sound, select, Bool-cases, arith,
}
use file_share_manager.Files.Model.{
  FileVersion, greater_version, greatest_version, versions_of, latest_version,
}
use file_share_manager.Files.Scans.{
  Store, Error, record_not_found, duplicated_key, is_version, get_version,
}
use file_share_manager.Nodes.Store.{is_active_file}
use file_share_manager.Files.Versions.{restored, with_restored, restore_version}

-- The number of the newest version is not below that of any row that it was chosen from.
greater_left :
    (v : FileVersion) (o : Option FileVersion) → v.version_no ≤ (greater_version v o).version_no
greater_left v none = omega arith
greater_left v (some w) = elim (Bool-cases (ltb v.version_no w.version_no)) [
  | inl t ↦ rw t (ground arith)
  | inr t ↦ rw t (omega arith)
]

greater_right : (v w : FileVersion) → w.version_no ≤ (greater_version v (some w)).version_no
greater_right v w = elim (Bool-cases (ltb v.version_no w.version_no)) [
  | inl t ↦ rw t (omega arith)
  | inr t ↦ rw t (ground arith)
]

ltb_of_< : (a b : ℕ) → a < b → ltb a b ≡ true
ltb_of_< a b h = ground arith

-- A greater row at the end of the rows is the greatest one.
greatest_version-append :
    (versions : List FileVersion) (v : FileVersion)
    → ((w : FileVersion) → greatest_version versions ≡ some w → w.version_no < v.version_no)
    → greatest_version (versions ++ v ∷ []) ≡ some v
greatest_version-append [] v h = refl
greatest_version-append (x ∷ versions) v h =
    rw (greatest_version-append versions v below)
      (rw (ltb_of_< x.version_no v.version_no first) refl)
  where
    below : (w : FileVersion) → greatest_version versions ≡ some w → w.version_no < v.version_no
    below w e =
        let l = h (greater_version x (some w)) (ap (λ o. some (greater_version x o)) e) in
        let r = greater_right x w in omega arith

    first : x.version_no < v.version_no
    first =
        let l = h (greater_version x (greatest_version versions)) refl in
        let r = greater_left x (greatest_version versions) in omega arith

select-append :
    (p : FileVersion → Bool) (xs : List FileVersion) (v : FileVersion)
    → p v ≡ true
    → select p (xs ++ v ∷ []) ≡ select p xs ++ v ∷ []
select-append p [] v h = rw h refl
select-append p (x ∷ xs) v h = elim (Bool-cases (p x)) [
  | inl t ↦ rw (t, select-append p xs v h) refl
  | inr t ↦ rw (t, select-append p xs v h) refl
]

matches : (x y a b : ℕ) → x ≡ a → y ≡ b → (x == a && y == b) ≡ true
matches x y a b h k = ground arith

-- A version above the newest one becomes the newest one.
pub latest_version-append :
    (workspace_id node_id : ℕ) (versions : List FileVersion) (v : FileVersion)
    → v.workspace_id ≡ workspace_id
    → v.node_id ≡ node_id
    → ((w : FileVersion)
        → latest_version workspace_id node_id versions ≡ some w
        → w.version_no < v.version_no)
    → latest_version workspace_id node_id (versions ++ v ∷ []) ≡ some v
latest_version-append workspace_id node_id versions v a b h =
    ap greatest_version
      (select-append _ versions v (matches v.workspace_id v.node_id workspace_id node_id a b))
    ∙ greatest_version-append (versions_of workspace_id node_id versions) v h

abbrev version_number : Option FileVersion → ℕ
version_number none = 0
version_number (some v) = v.version_no

is_version_of : (w n k a b c : ℕ) → (w == a && n == b && k == c) ≡ true → (w ≡ a) × (n ≡ b)
is_version_of w n k a b c h = (ground arith, ground arith)

restored_latest :
    (workspace_id node_id source_version_no actor_id now : ℕ) (s : Store)
    (source latest : FileVersion)
    → get_version workspace_id node_id source_version_no s ≡ some source
    → latest_version workspace_id node_id s.versions ≡ some latest
    → (v : FileVersion) (t : Store)
    → restored s.next_version_id (latest.version_no + 1) actor_id now source ≡ v
    → s.versions ++ restored s.next_version_id (latest.version_no + 1) actor_id now source ∷ []
      ≡ t.versions
    → latest_version workspace_id node_id t.versions ≡ some v
unfolding get_version
restored_latest workspace_id node_id source_version_no actor_id now s source latest e l v t a b =
    let (_, m) =
      find_first_sound (is_version workspace_id node_id source_version_no) s.versions source e in
    let (w, n) =
      is_version_of source.workspace_id source.node_id source.version_no workspace_id node_id
        source_version_no m in
    subst (λ vs. latest_version workspace_id node_id vs ≡ some v) b
      (latest_version-append workspace_id node_id s.versions
          (restored s.next_version_id (latest.version_no + 1) actor_id now source) w n above
        ∙ ap some a)
  where
    above :
        (x : FileVersion)
        → latest_version workspace_id node_id s.versions ≡ some x
        → x.version_no < latest.version_no + 1
    above x q = let g = ap version_number (sym l ∙ q) in omega arith

abbrev answer : FileVersion → Store → FileVersion × Store
answer v t = (v, t)

answer_injective :
    (v w : FileVersion) (s t : Store)
    → ◌≡◌ {A = Result Error (FileVersion × Store)} (ok (answer v s)) (ok (answer w t))
    → (v ≡ w) × (s ≡ t)
answer_injective v w s t h = (cc, cc)

-- A restored version is a copy of its source with a new identity, the number behind that of the
-- newest version, the actor and the time of the restoration, and the defaults for an empty class and
-- risk level; it becomes the newest version.
pub restore_version-latest :
    (workspace_id node_id source_version_no actor_id now : ℕ) (s t : Store) (v : FileVersion)
    → restore_version workspace_id node_id source_version_no actor_id now s ≡ ok (v, t)
    → (source latest : FileVersion) × (get_version workspace_id node_id source_version_no s
        ≡ some source)
      × (latest_version workspace_id node_id s.versions ≡ some latest)
      × (v ≡ restored s.next_version_id (latest.version_no + 1) actor_id now source)
      × (latest_version workspace_id node_id t.versions ≡ some v)
unfolding restore_version
restore_version-latest workspace_id node_id source_version_no actor_id now s t v h =
    let (node, _, h1) =
      or_fail-passed (find_first (is_active_file workspace_id node_id) s.nodes) record_not_found _
        h in
    let (source, e, h2) =
      or_fail-passed (get_version workspace_id node_id source_version_no s) record_not_found _ h1 in
    let (latest, l, h3) =
      or_fail-passed (latest_version workspace_id node_id s.versions) record_not_found _ h2 in
    let copy = restored s.next_version_id (latest.version_no + 1) actor_id now source in
    let (_, h4) =
      guard-passed _ duplicated_key
        (ok (answer copy (with_restored workspace_id copy node.id actor_id s))) h3 in
    let (a, b) =
      answer_injective copy v (with_restored workspace_id copy node.id actor_id s) t h4 in
    (
      source,
      latest,
      e,
      l,
      sym a,
      restored_latest workspace_id node_id source_version_no actor_id now s source latest e l v t a
          (ap (λ (u : Store). u.versions) b),
    )
