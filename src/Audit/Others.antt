-- ===== src/Audit/Others.antt =====
-- The chains of the workspaces to which `createOperationLogWithTx` of
-- server/internal/dao/operation_log.go does not append.
use Prim.Native.String.{String}
use file_share_manager.Prelude.{
  ℕ, ◌<◌, ◌==◌, eq_of_==, eq_option, ◌≡◌, ◌≢◌, refl, sym, ap, ◌∙◌, subst, ◌⊎◌, inl, inr, Bool, true,
  false, false≢true, [], ◌∷◌, ◌++◌, Option, none, some, select, In, In-append_cases, Bool-cases,
  arith, if◌then◌else◌, select-append,
}
use file_share_manager.Audit.Store.{Entry, OperationLog, AuditArchive, Store, previous_hash}
use file_share_manager.Audit.Chain.{sort_logs, logs_of, check_logs, start}
use file_share_manager.Audit.Appending.{tail_of}
use file_share_manager.Audit.Intact.{
  in_workspace, row_of, chain, IsIntact, log, stored, after, after-logs, row_after,
}

module _ (digest : String → ℕ → Option ℕ → Entry → Option String → String)
    (is_valid_manifest : AuditArchive → Bool) (s : Store) (w : Option ℕ) (entry : Entry)
    (sanitize : Entry → Entry) (classify : Entry → Option Entry) where
  abbrev behind : Store
  behind = after digest is_valid_manifest s w entry sanitize classify

  abbrev written : OperationLog
  written = stored digest is_valid_manifest s w entry sanitize classify

  -- The event is not one of the workspace: nothing changes for its chain.
  module _ (v : ℕ) (n : some v ≢ w) (g : IsIntact digest is_valid_manifest v s) where
    not-in_workspace : in_workspace v written ≡ false
    unfolding stored log
    not-in_workspace = apart w n
      where
        apart : (w : Option ℕ) → some v ≢ w → eq_option w (some v) ≡ false
        apart none n = refl
        apart (some u) n = elim (Bool-cases (u == v)) [
          | inl e ↦ absurd (n (ap some (sym (eq_of_== u v e))))
          | inr e ↦ e
        ]

    same_logs : logs_of v behind.logs ≡ logs_of v s.logs
    unfolding logs_of
    same_logs =
        ap (λ l. sort_logs (λ x. x.stream_seq) (select (in_workspace v) l))
          (after-logs digest is_valid_manifest s w entry sanitize classify)
        ∙ ap (sort_logs (λ x. x.stream_seq)) (
            select-append (in_workspace v) s.logs written
            ∙ ap
                (λ b.
                  if b
                  then select (in_workspace v) s.logs ++ written ∷ []
                  else select (in_workspace v) s.logs)
                not-in_workspace)

    same_chain : chain digest is_valid_manifest v behind ≡ chain digest is_valid_manifest v s
    same_chain =
        ap (λ l. check_logs digest is_valid_manifest l (start digest is_valid_manifest)) same_logs

    same_row : row_of (some v) behind ≡ row_of (some v) s
    same_row = row_after digest is_valid_manifest s w entry sanitize classify (some v) n

    pub IsIntact-other : IsIntact digest is_valid_manifest v behind
    IsIntact-other = record {
      whole = ap (λ p. p.broken_kind) same_chain ∙ g.whole;
      plain = ap (λ p. p.archived) same_chain ∙ g.plain;
      next = ap (λ p. p.expected_seq) same_chain ∙ g.next ∙ ap (λ o. (tail_of o).0) (sym same_row);
      last =
          ap (λ p. p.previous) same_chain
          ∙ g.last
          ∙ ap (λ o. previous_hash (tail_of o).1) (sym same_row);
      below = λ x i m.
          fewer x
            (In-append_cases x s.logs (written ∷ [])
              (subst (In x) (after-logs digest is_valid_manifest s w entry sanitize classify) i))
            m;
      kept = elim g.kept [
        | inl e ↦ inl (same_logs ∙ e)
        | inr (r, e, l, h) ↦ inr (r, same_row ∙ e, l, h)
      ];
    }
      where
        fewer :
            (x : OperationLog)
            → In x s.logs ⊎ In x (written ∷ [])
            → in_workspace v x ≡ true
            → x.stream_seq < (chain digest is_valid_manifest v behind).expected_seq
        fewer x (inl i) m = omega (arith, g.below x i m, ap (λ p. p.expected_seq) same_chain)
        fewer x (inr (inl q)) m =
            absurd (false≢true (sym not-in_workspace ∙ ap (in_workspace v) (sym q) ∙ m))
        fewer x (inr (inr k)) m = absurd k
