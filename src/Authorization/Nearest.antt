-- ===== src/Authorization/Nearest.antt =====
-- The entries at the nearest depth and the depths behind it, in `Resolve` of
-- server/internal/service/authorization/service.go.
use file_share_manager.Prelude.{
  ℕ, ◌≤◌, ◌<◌, ◌≡◌, ◌≢◌, ◌⊎◌, inl, inr, refl, sym, ap, subst, true, false, ◌∙◌, List, ◌∷◌, arith,
  In,
}
use file_share_manager.Authorization.{
  AccessLevel, SubjectType, user, group, EffectiveAclEntry, is_nonempty, subject_entries,
  entries_allow, take_run, drop_run,
}
use file_share_manager.Authorization.Runs.{
  IsByDepth, IsFor, take_run-In, In-take_run, drop_run-In, In-drop_run, entries_allow_sound,
  entries_allow_complete, subject-In, In-subject, nonempty-In, In-nonempty,
}
use file_share_manager.Authorization.Granted.{IsGranted}

module _ (e : EffectiveAclEntry) (es : List EffectiveAclEntry) (s : IsByDepth (e ∷ es)) where
  ne_of_lt : {a b : ℕ} → a < b → a ≢ b
  ne_of_lt h = omega arith

  low : (y : EffectiveAclEntry) → In y (e ∷ es) → e.depth ≤ y.depth
  low y (inl h) = ground arith
  low y (inr h) = s.0 y h

  run-In :
      (x : EffectiveAclEntry) → In x (e ∷ take_run e.depth es) → In x (e ∷ es) × (x.depth ≡ e.depth)
  run-In x (inl h) = (inl h, ap (λ y. y.depth) h)
  run-In x (inr h) = let (i, d) = take_run-In e.depth es x h in (inr i, d)

  In-run :
      (x : EffectiveAclEntry) → In x (e ∷ es) → x.depth ≡ e.depth → In x (e ∷ take_run e.depth es)
  In-run x (inl h) d = inl h
  In-run x (inr h) d = inr (In-take_run e.depth es x s.1 s.0 h d)

  In-rest : (x : EffectiveAclEntry) → In x (e ∷ es) → x.depth ≢ e.depth → In x (drop_run e.depth es)
  In-rest x (inl h) n = absurd (n (ap (λ y. y.depth) h))
  In-rest x (inr h) n = In-drop_run e.depth es x h n

  module _ (r : AccessLevel) where
    pub IsGranted-here :
        (t : SubjectType)
        → (t ≡ user) ⊎ (t ≡ group)
        → (t ≡ group → (x : EffectiveAclEntry) → In x (e ∷ es) → IsFor user x → x.depth ≢ e.depth)
        → entries_allow (subject_entries (e ∷ take_run e.depth es) t) r ≡ true
        → IsGranted (e ∷ es) r
    IsGranted-here t k first h =
        let (undenied, found) = entries_allow_sound _ r h in
        let (g, i, a, l) = found in
        let (j, f) = subject-In t _ g i in
        let (m, d) = run-In g j in
        record {
          depth = e.depth;
          subject = t;
          decisive = record {
            kind = k;
            nearest_user = λ x ix _. low x ix;
            nearest_group = λ x ix _. low x ix;
            user_first = first;
          };
          no_deny = λ x ix dx fx. undenied x (In-subject t _ x (In-run x ix dx) fx);
          grant = g;
          listed = m;
          placed = d;
          to = f;
          allows = a;
          enough = l;
        }

    allow_here :
        (g : IsGranted (e ∷ es) r)
        → g.depth ≡ e.depth
        → entries_allow (subject_entries (e ∷ take_run e.depth es) g.subject) r ≡ true
    allow_here g d =
        entries_allow_complete _ r g.grant
          (λ x i.
            let (j, f) = subject-In g.subject (e ∷ take_run e.depth es) x i in
            let (m, dx) = run-In x j in g.no_deny x m (dx ∙ sym d) f)
          (In-subject g.subject (e ∷ take_run e.depth es) g.grant
            (In-run g.grant g.listed (g.placed ∙ d)) g.to)
          g.allows g.enough

    rest-In :
        (x : EffectiveAclEntry) → In x (drop_run e.depth es) → In x (e ∷ es) × (e.depth < x.depth)
    rest-In x h = let (i, l) = drop_run-In e.depth es x s.1 s.0 h in (inr i, l)

    pub unnamed-away :
        (t : SubjectType) (x : EffectiveAclEntry)
        → is_nonempty (subject_entries (e ∷ take_run e.depth es) t) ≡ false
        → In x (e ∷ es)
        → IsFor t x
        → x.depth ≢ e.depth
    unnamed-away t x h i f d = In-nonempty t (e ∷ take_run e.depth es) x h (In-run x i d) f

    pub IsGranted-later :
        is_nonempty (subject_entries (e ∷ take_run e.depth es) user) ≡ false
        → is_nonempty (subject_entries (e ∷ take_run e.depth es) group) ≡ false
        → IsGranted (drop_run e.depth es) r
        → IsGranted (e ∷ es) r
    IsGranted-later nu ng g = record {
      depth = g.depth;
      subject = g.subject;
      decisive = record {
        kind = g.decisive.kind;
        nearest_user =
            λ x i f. g.decisive.nearest_user x (In-rest x i (unnamed-away user x nu i f)) f;
        nearest_group =
            λ x i f. g.decisive.nearest_group x (In-rest x i (unnamed-away group x ng i f)) f;
        user_first =
            λ k x i f. g.decisive.user_first k x (In-rest x i (unnamed-away user x nu i f)) f;
      };
      no_deny = λ x i d f. g.no_deny x (In-rest x i (λ c. ne_of_lt below (sym c ∙ d))) d f;
      grant = g.grant;
      listed = (rest-In g.grant g.listed).0;
      placed = g.placed;
      to = g.to;
      allows = g.allows;
      enough = g.enough;
    }
      where
        below : e.depth < g.depth
        below = omega (arith, (rest-In g.grant g.listed).1, g.placed)

    pub later-IsGranted :
        (g : IsGranted (e ∷ es) r) → g.depth ≢ e.depth → IsGranted (drop_run e.depth es) r
    later-IsGranted g n = record {
      depth = g.depth;
      subject = g.subject;
      decisive = record {
        kind = g.decisive.kind;
        nearest_user = λ x i f. g.decisive.nearest_user x (rest-In x i).0 f;
        nearest_group = λ x i f. g.decisive.nearest_group x (rest-In x i).0 f;
        user_first = λ k x i f. g.decisive.user_first k x (rest-In x i).0 f;
      };
      no_deny = λ x i d f. g.no_deny x (rest-In x i).0 d f;
      grant = g.grant;
      listed = In-rest g.grant g.listed (λ c. n (sym g.placed ∙ c));
      placed = g.placed;
      to = g.to;
      allows = g.allows;
      enough = g.enough;
    }

    -- Where the nearest depth names the user or a group, that depth decides.
    named_depth :
        (t : SubjectType)
        → (t ≡ user) ⊎ (t ≡ group)
        → is_nonempty (subject_entries (e ∷ take_run e.depth es) t) ≡ true
        → (g : IsGranted (e ∷ es) r) → g.depth ≡ e.depth
    named_depth t k h g =
        let (x, i, f) = nonempty-In t (e ∷ take_run e.depth es) h in
        let (m, d) = run-In x i in named_le t k x m f d
      where
        named_le :
            (t : SubjectType)
            → (t ≡ user) ⊎ (t ≡ group)
            → (x : EffectiveAclEntry) → In x (e ∷ es)
            → IsFor t x
            → x.depth ≡ e.depth
            → g.depth ≡ e.depth
        named_le t (inl k) x m f d = omega (
          arith,
          g.decisive.nearest_user x m (subst (λ z. IsFor z x) k f),
          low g.grant g.listed,
          g.placed,
        )
        named_le t (inr k) x m f d = omega (
          arith,
          g.decisive.nearest_group x m (subst (λ z. IsFor z x) k f),
          low g.grant g.listed,
          g.placed,
        )

    pub user_decides :
        (g : IsGranted (e ∷ es) r)
        → is_nonempty (subject_entries (e ∷ take_run e.depth es) user) ≡ true
        → entries_allow (subject_entries (e ∷ take_run e.depth es) user) r ≡ true
    user_decides g u = go g.decisive.kind
      where
        d : g.depth ≡ e.depth
        d = named_depth user (inl refl) u g

        go :
            (g.subject ≡ user) ⊎ (g.subject ≡ group)
            → entries_allow (subject_entries (e ∷ take_run e.depth es) user) r ≡ true
        go (inl k) =
            subst (λ z. entries_allow (subject_entries (e ∷ take_run e.depth es) z) r ≡ true) k
              (allow_here g d)
        go (inr k) =
            let (x, i, f) = nonempty-In user (e ∷ take_run e.depth es) u in
            let (m, dx) = run-In x i in absurd (g.decisive.user_first k x m f (dx ∙ sym d))

    pub group_decides :
        (g : IsGranted (e ∷ es) r)
        → is_nonempty (subject_entries (e ∷ take_run e.depth es) user) ≡ false
        → is_nonempty (subject_entries (e ∷ take_run e.depth es) group) ≡ true
        → entries_allow (subject_entries (e ∷ take_run e.depth es) group) r ≡ true
    group_decides g u k = go g.decisive.kind
      where
        d : g.depth ≡ e.depth
        d = named_depth group (inr refl) k g

        go :
            (g.subject ≡ user) ⊎ (g.subject ≡ group)
            → entries_allow (subject_entries (e ∷ take_run e.depth es) group) r ≡ true
        go (inl q) = absurd (
            unnamed-away user g.grant u g.listed (subst (λ z. IsFor z g.grant) q g.to)
              (g.placed ∙ d))
        go (inr q) =
            subst (λ z. entries_allow (subject_entries (e ∷ take_run e.depth es) z) r ≡ true) q
              (allow_here g d)

    pub unnamed_depth :
        (g : IsGranted (e ∷ es) r)
        → is_nonempty (subject_entries (e ∷ take_run e.depth es) user) ≡ false
        → is_nonempty (subject_entries (e ∷ take_run e.depth es) group) ≡ false
        → g.depth ≢ e.depth
    unnamed_depth g u k d = go g.decisive.kind
      where
        go : (g.subject ≡ user) ⊎ (g.subject ≡ group) → ⊥
        go (inl q) =
            unnamed-away user g.grant u g.listed (subst (λ z. IsFor z g.grant) q g.to)
              (g.placed ∙ d)
        go (inr q) =
            unnamed-away group g.grant k g.listed (subst (λ z. IsFor z g.grant) q g.to)
              (g.placed ∙ d)
