-- ===== src/Audit/Keys.antt =====
-- The keys of the streams of the audit log.
use Prim.Native.Char.{code}
use Prim.Native.String
use Prim.Native.String.append
use Prim.Native.String.{String, [], ◌∷◌}
use file_share_manager.Prelude.{
  ℕ, ◌≡◌, ◌≢◌, refl, sym, ap, ◌∙◌, arith, Option, none, some, format_uint, format_uint-injective,
}
use file_share_manager.Audit.Store.{audit_stream_key}

-- The text behind a prefix of the same length.
strip : String → String → String
strip [] text = text
strip (p ∷ prefix) [] = []
strip (p ∷ prefix) (c ∷ text) = strip prefix text

strip-append : (prefix text : String) → strip prefix (String.◌++◌ prefix text) ≡ text
unfolding strip
strip-append [] text = append.nil text
strip-append (c ∷ prefix) text =
    ap (strip (c ∷ prefix)) (append.cons c prefix text) ∙ strip-append prefix text

prefix_injective : (prefix s t : String) → String.◌++◌ prefix s ≡ String.◌++◌ prefix t → s ≡ t
prefix_injective prefix s t e =
    sym (strip-append prefix s) ∙ ap (strip prefix) e ∙ strip-append prefix t

first_code : String → ℕ
first_code [] = 0
first_code (c ∷ text) = code c

global-ne-workspace : (s : String) → String.◌++◌ "workspace:" s ≢ "global"
unfolding first_code
global-ne-workspace s e = apart (ap first_code (sym (append.cons "w" "orkspace:" s) ∙ e))
  where
    apart : code "w" ≢ code "g"
    apart e = omega arith

-- The log of every workspace and that of the platform stand in streams of their own: equal keys are
-- those of the same workspace.
pub audit_stream_key-injective : (a b : Option ℕ) → audit_stream_key a ≡ audit_stream_key b → a ≡ b
unfolding audit_stream_key
audit_stream_key-injective none none e = refl
audit_stream_key-injective none (some n) e = absurd (global-ne-workspace (format_uint n) (sym e))
audit_stream_key-injective (some m) none e = absurd (global-ne-workspace (format_uint m) e)
audit_stream_key-injective (some m) (some n) e =
    ap some
      (format_uint-injective m n (prefix_injective "workspace:" (format_uint m) (format_uint n) e))
