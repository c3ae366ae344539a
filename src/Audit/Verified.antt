-- ===== src/Audit/Verified.antt =====
-- Sequences of `createOperationLogWithTx` under `VerifyChain` of
-- server/internal/dao/operation_log.go.
use Prim.Native.String.{String}
use text.Mathlib.Text.{◌==◌ as str_eq}
use file_share_manager.Prelude.{
  ℕ, ◌+◌, ◌==◌, ==_refl, eq_of_==, ltb, ◌≡◌, ◌≢◌, refl, sym, ap, ◌∙◌, subst, ◌⊎◌, inl, inr, Bool,
  true, false, ◌&&◌, not, List, [], Option, none, some, ok, or_fail-passed, ok_injective, length,
  Bool-cases, arith, if◌then◌else◌,
}
use file_share_manager.Audit.Store.{
  Entry, AuditStream, AuditArchive, Store, invalid_classification, with_actor_workspace,
  previous_hash, write_log, create_operation_log,
}
use file_share_manager.Audit.Chain.{
  BrokenKind, stream_tail, break_at, sort_archives, sort_logs, AuditVerification, Progress,
  same_hash, logs_of, archives_of, last_id, check_logs, check_archives, check_chain, check_tail,
  report, choose_report, verify_chain,
}
use file_share_manager.Audit.Appending.{tail_of, same_hash_refl}
use file_share_manager.Audit.Longer.{IsIntact-own}
use file_share_manager.Audit.Others.{IsIntact-other}
use file_share_manager.Audit.Intact.{
  row_of, chain, IsIntact, stream, log, after, started_number, previous_hash-some,
}

-- Before the first event.
abbrev pub empty_log : ℕ → Store
empty_log id = record { logs = []; streams = []; archives = []; next_log_id = id }

module _ (digest : String → ℕ → Option ℕ → Entry → Option String → String)
    (is_valid_manifest : AuditArchive → Bool) where
  chosen :
      (o : Option BrokenKind) (a b : AuditVerification)
      → o ≡ none
      → choose_report digest is_valid_manifest o a b ≡ a
  chosen none a b e = refl
  chosen (some k) a b e = absurd (ne e)
    where
      ne : some k ≢ none
      ne q = cc

  -- The row of the stream agrees with the chain, so that the last test changes nothing.
  tail_passes :
      (v : ℕ) (s : Store) (g : IsIntact digest is_valid_manifest v s) (last : Option ℕ)
      → check_tail digest is_valid_manifest
          ((chain digest is_valid_manifest v s).archived + length (logs_of v s.logs))
          last
          (row_of (some v) s)
          (chain digest is_valid_manifest v s)
        ≡ chain digest is_valid_manifest v s
  unfolding check_tail
  tail_passes v s g last = elim g.kept [
    | inl e ↦ empty (row_of (some v) s) (chain digest is_valid_manifest v s) _ g.plain (ap length e)
    | inr (r, e, l, h) ↦
        subst
          (λ o.
            check_tail digest is_valid_manifest
              ((chain digest is_valid_manifest v s).archived + length (logs_of v s.logs)) last o
              (chain digest is_valid_manifest v s)
            ≡ chain digest is_valid_manifest v s)
          (sym e)
          (present r (chain digest is_valid_manifest v s)
            ((chain digest is_valid_manifest v s).archived + length (logs_of v s.logs))
            (g.next ∙ ap (λ o. (tail_of o).0) e ∙ started_number r l)
            (g.last ∙ ap (λ o. previous_hash (tail_of o).1) e ∙ previous_hash-some r.last_hash h))
  ]
    where
      empty :
          (o : Option AuditStream) (p : Progress) (n : ℕ)
          → p.archived ≡ 0
          → n ≡ 0
          → check_tail digest is_valid_manifest (p.archived + n) last o p ≡ p
      empty none p n a e = ground arith
      empty (some r) p n a e = ground arith

      present :
          (r : AuditStream) (p : Progress) (checked : ℕ)
          → p.expected_seq ≡ r.next_seq
          → p.previous ≡ some r.last_hash
          → check_tail digest is_valid_manifest checked last (some r) p ≡ p
      present r p checked n e = rw (number, hash) (settled (ltb 0 checked))
        where
          number : (r.next_seq == p.expected_seq) ≡ true
          number = rw n (==_refl r.next_seq)

          hash : same_hash p.previous (some r.last_hash) ≡ true
          hash = ap (λ o. same_hash o (some r.last_hash)) e ∙ same_hash_refl (some r.last_hash)

          settled :
              (b : Bool) → (if b && not (true && true) then break_at last stream_tail p else p) ≡ p
          settled true = refl
          settled false = refl

  -- The verification as a function of the archives.
  abbrev with_archives : ℕ → Store → List AuditArchive → AuditVerification
  with_archives v s archives =
      let p = check_chain digest is_valid_manifest archives (logs_of v s.logs) in
      let checked = p.archived + length (logs_of v s.logs) in
      choose_report digest is_valid_manifest p.broken_kind
        (report digest is_valid_manifest checked (
          check_tail digest is_valid_manifest checked (last_id none (logs_of v s.logs))
            (row_of (some v) s) p))
        (report digest is_valid_manifest 0 p)

  no_archives : (v : ℕ) (archives : List AuditArchive) → archives ≡ [] → archives_of v archives ≡ []
  unfolding archives_of sort_archives
  no_archives v archives a = ap (archives_of v) a

  without_archives :
      (v : ℕ) (s : Store)
      → IsIntact digest is_valid_manifest v s
      → with_archives v s []
        ≡ report digest is_valid_manifest
            ((chain digest is_valid_manifest v s).archived + length (logs_of v s.logs))
            (chain digest is_valid_manifest v s)
  unfolding check_chain check_archives
  without_archives v s g =
      chosen (chain digest is_valid_manifest v s).broken_kind
        (report digest is_valid_manifest
          ((chain digest is_valid_manifest v s).archived + length (logs_of v s.logs))
          (check_tail digest is_valid_manifest
            ((chain digest is_valid_manifest v s).archived + length (logs_of v s.logs))
            (last_id none (logs_of v s.logs)) (row_of (some v) s)
            (chain digest is_valid_manifest v s)))
        (report digest is_valid_manifest 0 (chain digest is_valid_manifest v s)) g.whole
      ∙ ap
          (report digest is_valid_manifest
            ((chain digest is_valid_manifest v s).archived + length (logs_of v s.logs)))
          (tail_passes v s g (last_id none (logs_of v s.logs)))

  -- An intact chain without archives passes the verification, which has looked at every log of the
  -- workspace.
  pub verify_chain-whole :
      (v : ℕ) (s : Store)
      → IsIntact digest is_valid_manifest v s
      → s.archives ≡ []
      → ((verify_chain digest is_valid_manifest v s).broken_kind ≡ none)
        × ((verify_chain digest is_valid_manifest v s).checked ≡ length (logs_of v s.logs))
  unfolding verify_chain
  verify_chain-whole v s g a =
      let e = ap (with_archives v s) (no_archives v s.archives a) ∙ without_archives v s g in
      (
        ap (λ (r : AuditVerification). r.broken_kind) e ∙ g.whole,
        ap (λ (r : AuditVerification). r.checked) e
            ∙ ap (λ n. n + length (logs_of v s.logs)) g.plain
            ∙ omega arith,
      )

  module _ (sanitize : Entry → Entry) (classify : Entry → Option Entry) where
    -- Successive events, of any workspaces.
    pub data Run : Store → Store → Type 0 where
      done : {s : Store} → Run s s
      append :
          (w : Option ℕ) (entry : Entry) {s s' t : Store}
          → create_operation_log digest sanitize classify w entry s ≡ ok s'
          → Run s' t
          → Run s t

    module _
        (nonempty : (k : String) (n : ℕ) (o : Option ℕ) (e : Entry) (p : Option String)
          → str_eq (digest k n o e p) "" ≡ false) where
      -- A written event keeps the chain of each workspace intact.
      step-IsIntact :
          (w : Option ℕ) (entry : Entry) (s s' : Store) (v : ℕ)
          → create_operation_log digest sanitize classify w entry s ≡ ok s'
          → IsIntact digest is_valid_manifest v s
          → IsIntact digest is_valid_manifest v s' × (s'.archives ≡ s.archives)
      unfolding create_operation_log write_log log stream
      step-IsIntact w entry s s' v h g =
          let (classified, _, k) =
            or_fail-passed (classify (with_actor_workspace w (sanitize entry)))
              invalid_classification _ h in
          let e =
            ok_injective (after digest is_valid_manifest s w classified sanitize classify) s' k in
          (
            subst (IsIntact digest is_valid_manifest v) e (keeps classified (same w)),
            ap (λ (t : Store). t.archives) (sym e),
          )
        where
          same : (w : Option ℕ) → (w ≡ some v) ⊎ (some v ≢ w)
          same none = inr (λ q. cc)
          same (some u) = elim (Bool-cases (u == v)) [
            | inl q ↦ inl (ap some (eq_of_== u v q))
            | inr q ↦ inr (λ r. ground arith)
          ]

          keeps :
              (classified : Entry)
              → (w ≡ some v) ⊎ (some v ≢ w)
              → IsIntact digest is_valid_manifest v
                  (after digest is_valid_manifest s w classified sanitize classify)
          keeps classified (inl e) =
              IsIntact-own digest is_valid_manifest s w classified sanitize classify v e g nonempty
          keeps classified (inr n) =
              IsIntact-other digest is_valid_manifest s w classified sanitize classify v n g

      Run-IsIntact :
          {s t : Store} (v : ℕ)
          → Run s t
          → IsIntact digest is_valid_manifest v s
          → s.archives ≡ []
          → IsIntact digest is_valid_manifest v t × (t.archives ≡ [])
      Run-IsIntact v done g a = (g, a)
      Run-IsIntact v (append w entry {s = s} {s' = s'} h rest) g a =
          let (k, b) = step-IsIntact w entry s s' v h g in Run-IsIntact v rest k (b ∙ a)

      empty-IsIntact : (v id : ℕ) → IsIntact digest is_valid_manifest v (empty_log id)
      unfolding logs_of sort_logs check_logs
      empty-IsIntact v id = record {
        whole = refl;
        plain = refl;
        next = refl;
        last = refl;
        below = λ x i m. absurd i;
        kept = inl refl;
      }

      -- Whatever events are appended to an empty log, of whatever workspaces and in whatever order,
      -- the verification of each workspace finds nothing broken and has looked at every log of the
      -- workspace. The digest is assumed to give no empty text.
      pub Run-verified :
          (id : ℕ) (t : Store) (v : ℕ)
          → Run (empty_log id) t
          → ((verify_chain digest is_valid_manifest v t).broken_kind ≡ none)
            × ((verify_chain digest is_valid_manifest v t).checked ≡ length (logs_of v t.logs))
      Run-verified id t v r =
          let (g, a) = Run-IsIntact v r (empty-IsIntact v id) refl in verify_chain-whole v t g a
