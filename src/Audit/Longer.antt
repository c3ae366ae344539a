-- ===== src/Audit/Longer.antt =====
-- The chain of the workspace to which `createOperationLogWithTx` of
-- server/internal/dao/operation_log.go appends.
use Prim.Native.String.{String}
use text.Mathlib.Text.{◌==◌ as str_eq}
use file_share_manager.Prelude.{
  ℕ, suc, ◌≤◌, ◌<◌, ==_refl, ◌≡◌, refl, sym, ap, ◌∙◌, subst, ◌⊎◌, inl, inr, Bool, true, false, [],
  ◌∷◌, ◌++◌, Option, some, select, select-In, In, In-append_cases, arith, if◌then◌else◌,
  select-append,
}
use file_share_manager.Audit.Store.{
  Entry, OperationLog, AuditStream, AuditArchive, Store, previous_hash, calculate_hash, advanced,
}
use file_share_manager.Audit.Chain.{sort_logs, logs_of, check_logs, start}
use file_share_manager.Audit.Appending.{tail_of, sort_logs-append, locked-tail, check_logs-append}
use file_share_manager.Audit.Intact.{
  in_workspace, row_of, chain, IsIntact, stream, log, stored, after, after-logs, row_own, appended,
  passed, stored-passed, started_number, previous_hash-some,
}

module _ (digest : String → ℕ → Option ℕ → Entry → Option String → String)
    (is_valid_manifest : AuditArchive → Bool) (s : Store) (w : Option ℕ) (entry : Entry)
    (sanitize : Entry → Entry) (classify : Entry → Option Entry) where
  abbrev locked_row : AuditStream
  locked_row = stream digest is_valid_manifest s w entry sanitize classify

  abbrev event : OperationLog
  event = log digest is_valid_manifest s w entry sanitize classify

  abbrev written : OperationLog
  written = stored digest is_valid_manifest s w entry sanitize classify

  abbrev behind : Store
  behind = after digest is_valid_manifest s w entry sanitize classify

  abbrev grown : AuditStream → AuditStream
  grown = appended digest is_valid_manifest s w entry sanitize classify

  -- The event is one of the workspace: its chain gets longer by one.
  module _ (v : ℕ) (e : w ≡ some v) (g : IsIntact digest is_valid_manifest v s) where
    next_number : (chain digest is_valid_manifest v s).expected_seq ≡ locked_row.next_seq
    unfolding stream
    next_number =
        g.next ∙ ap (λ o. (tail_of (row_of o s)).0) (sym e) ∙ sym (locked-tail w s.streams).0

    last_hash_lem :
        (chain digest is_valid_manifest v s).previous ≡ previous_hash locked_row.last_hash
    unfolding stream
    last_hash_lem =
        g.last
        ∙ ap (λ o. previous_hash (tail_of (row_of o s)).1) (sym e)
        ∙ ap previous_hash (sym (locked-tail w s.streams).1)

    in_workspace_lem : in_workspace v written ≡ true
    unfolding stored log
    in_workspace_lem = rw e (==_refl v)

    written_number : written.stream_seq ≡ locked_row.next_seq
    unfolding stored log
    written_number = refl

    own_logs : logs_of v behind.logs ≡ logs_of v s.logs ++ written ∷ []
    unfolding logs_of
    own_logs =
        ap (λ l. sort_logs (λ x. x.stream_seq) (select (in_workspace v) l))
          (after-logs digest is_valid_manifest s w entry sanitize classify)
        ∙ ap (sort_logs (λ x. x.stream_seq)) (
            select-append (in_workspace v) s.logs written
            ∙ ap
                (λ b.
                  if b
                  then select (in_workspace v) s.logs ++ written ∷ []
                  else select (in_workspace v) s.logs)
                in_workspace_lem)
        ∙ sort_logs-append (λ x. x.stream_seq) written (select (in_workspace v) s.logs) below_it
      where
        below_it :
            (y : OperationLog)
            → In y (select (in_workspace v) s.logs)
            → y.stream_seq ≤ written.stream_seq
        below_it y i =
            let (j, m) = select-In (in_workspace v) y s.logs i in
            omega (arith, g.below y j m, next_number, written_number)

    own_chain :
        chain digest is_valid_manifest v behind
        ≡ passed digest is_valid_manifest written (chain digest is_valid_manifest v s)
    own_chain =
        ap (λ l. check_logs digest is_valid_manifest l (start digest is_valid_manifest)) own_logs
        ∙ check_logs-append digest is_valid_manifest (logs_of v s.logs) written
            (start digest is_valid_manifest) g.whole
        ∙ stored-passed digest is_valid_manifest s w entry sanitize classify
            (chain digest is_valid_manifest v s) next_number last_hash_lem

    own_tail :
        (r : AuditStream) × (row_of (some v) behind
          ≡ some (
              advanced digest sanitize classify
                (calculate_hash digest event event.prev_hash)
                event.entry.created_at
                locked_row
                r))
    own_tail =
        let (r, q) = row_own digest is_valid_manifest s w entry sanitize classify in
        (r, ap (λ o. row_of o behind) (sym e) ∙ q)

    module _
        (nonempty : (k : String) (n : ℕ) (o : Option ℕ) (e : Entry) (p : Option String)
          → str_eq (digest k n o e p) "" ≡ false) where
      hash_nonempty : str_eq (calculate_hash digest event event.prev_hash) "" ≡ false
      unfolding calculate_hash
      hash_nonempty =
          nonempty event.stream_key event.stream_seq event.workspace_id event.entry event.prev_hash

      pub IsIntact-own : IsIntact digest is_valid_manifest v behind
      unfolding stored
      IsIntact-own =
          let (r, q) = own_tail in
          record {
            whole = ap (λ p. p.broken_kind) own_chain ∙ g.whole;
            plain = ap (λ p. p.archived) own_chain ∙ g.plain;
            next =
                ap (λ p. p.expected_seq) own_chain
                ∙ ap suc next_number
                ∙ sym (ap (λ o. (tail_of o).0) q ∙ started_number (grown r) (omega arith));
            last =
                ap (λ p. p.previous) own_chain
                ∙ sym (
                    ap (λ o. previous_hash (tail_of o).1) q
                    ∙ previous_hash-some (calculate_hash digest event event.prev_hash)
                        hash_nonempty);
            below = λ x i m.
                fewer x
                  (In-append_cases x s.logs (written ∷ []) (
                    subst (In x) (after-logs digest is_valid_manifest s w entry sanitize classify)
                      i))
                  m;
            kept = inr (_, q, omega arith, hash_nonempty);
          }
        where
          fewer :
              (x : OperationLog)
              → In x s.logs ⊎ In x (written ∷ [])
              → in_workspace v x ≡ true
              → x.stream_seq < (chain digest is_valid_manifest v behind).expected_seq
          fewer x (inl i) m = omega (arith, g.below x i m, ap (λ p. p.expected_seq) own_chain)
          fewer x (inr (inl q)) m = omega (
            arith,
            ap (λ z. z.stream_seq) q,
            written_number,
            next_number,
            ap (λ p. p.expected_seq) own_chain,
          )
          fewer x (inr (inr n)) m = absurd n
