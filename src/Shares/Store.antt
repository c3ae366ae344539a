-- ===== src/Shares/Store.antt =====
-- The tables `shares` and `share_items` of server/internal/model/share.go, and the operations of
-- server/internal/dao/share.go that create, find, list, revoke and expire shares. Times are numbers.
use Prim.Native.String.{String}
use text.Mathlib.Text.{◌==◌ as str_eq}
use file_share_manager.Prelude.{
  ℕ, suc, ◌==◌, ltb, leb, Bool, true, false, ◌&&◌, ◌||◌, not, List, [], ◌∷◌, ◌++◌, map, Option,
  none, some, Result, ok, ◌>>◌, guard, any, find_first, select, update_where,
}
use file_share_manager.Nodes.Store.{NodeType, Change}
use file_share_manager.Files.Model.{inserted_class, ScanStatus, StorageClass}

pub data ShareStatus : Type 0 where
  active revoked expired : ShareStatus

pub record Share : Type 0 where
  pub id : ℕ
  pub workspace_id : ℕ
  pub source_node_id : ℕ
  pub public_id : String
  pub token_hash : String
  pub name : String
  pub root_type : NodeType
  pub root_name : String
  pub password_hash : String
  pub expires_at : ℕ
  pub max_downloads : Option ℕ
  pub download_count : ℕ
  pub status : ShareStatus
  pub created_by : ℕ
  pub created_at : ℕ
  pub updated_at : ℕ
  pub revoked_at : Option ℕ

pub record ShareItem : Type 0 where
  pub id : ℕ
  pub share_id : ℕ
  pub public_id : String
  pub relative_path : String
  pub name : String
  pub version_no : ℕ
  pub storage_key : String
  pub storage_class : StorageClass
  pub size : ℕ
  pub sha256 : String
  pub detected_mime : String
  pub scan_status : ScanStatus
  pub created_at : ℕ

pub record Store : Type 0 where
  pub shares : List Share
  pub items : List ShareItem
  pub changes : List Change
  pub next_share_id : ℕ
  pub next_item_id : ℕ

pub data Error : Type 0 where
  share_not_found share_expired share_revoked share_limit share_item share_unsafe : Error
  share_restore_required record_not_found duplicated_key : Error

abbrev pub is_active : ShareStatus → Bool
is_active active = true
is_active _ = false

abbrev pub is_revoked : ShareStatus → Bool
is_revoked revoked = true
is_revoked _ = false

abbrev pub is_expired : ShareStatus → Bool
is_expired expired = true
is_expired _ = false

-- `appendChange` for a share, without the JSON payload.
abbrev pub share_change : ℕ → ℕ → String → Change
share_change workspace_id id operation = record {
  workspace_id = workspace_id;
  entity_type = "share";
  entity_id = id;
  operation = operation;
}

-- `tx.Create(&items)`: the rows get the identity of the share and their own.
abbrev pub number_items : ℕ → ℕ → List ShareItem → List ShareItem
number_items share_id next [] = []
number_items share_id next (item ∷ items) =
    record item {
      id = next;
      share_id = share_id;
      storage_class = inserted_class item.storage_class;
    }
    ∷ number_items share_id (suc next) items

abbrev pub advance : ℕ → List ShareItem → ℕ
advance next [] = next
advance next (item ∷ items) = advance (suc next) items

abbrev pub with_share : Share → List ShareItem → Store → Store
with_share share items s = record s {
  shares = s.shares ++ record share { id = s.next_share_id } ∷ [];
  items = s.items ++ number_items s.next_share_id s.next_item_id items;
  changes = s.changes ++ share_change share.workspace_id s.next_share_id "create" ∷ [];
  next_share_id = suc s.next_share_id;
  next_item_id = advance s.next_item_id items;
}

-- The columns `public_id` and `token_hash` are unique.
abbrev pub has_keys_of : Share → Share → Bool
has_keys_of share x = str_eq x.public_id share.public_id || str_eq x.token_hash share.token_hash

unfoldable pub create : Share → List ShareItem → Store → Result Error Store
create share items s =
    guard (not (any (has_keys_of share) s.shares)) duplicated_key >> ok (with_share share items s)

unfoldable pub get_by_id : ℕ → ℕ → Store → Option Share
get_by_id workspace_id id s =
    find_first (λ x. x.workspace_id == workspace_id && x.id == id) s.shares

unfoldable pub get_by_token_hash : String → Store → Option Share
get_by_token_hash token_hash s = find_first (λ x. str_eq x.token_hash token_hash) s.shares

abbrev pub below_limit : Option ℕ → ℕ → Bool
below_limit none count = true
below_limit (some limit) count = ltb count limit

-- The status filters of `ListPage`.
pub data ShareFilter : Type 0 where
  active_shares revoked_shares expired_shares exhausted_shares : ShareFilter

unfoldable pub matches : ShareFilter → ℕ → Share → Bool
matches active_shares now x =
    is_active x.status && ltb now x.expires_at && below_limit x.max_downloads x.download_count
matches revoked_shares now x = is_revoked x.status
matches expired_shares now x =
    not (is_revoked x.status) && (is_expired x.status || leb x.expires_at now)
matches exhausted_shares now x =
    is_active x.status && ltb now x.expires_at && not (below_limit x.max_downloads x.download_count)

abbrev pub is_revocable : ℕ → ℕ → Share → Bool
is_revocable workspace_id id x = x.workspace_id == workspace_id && x.id == id && is_active x.status

abbrev pub with_revocation : ℕ → ℕ → ℕ → Store → Store
with_revocation workspace_id id now s = record s {
  shares =
      update_where (is_revocable workspace_id id)
        (λ x. record x { status = revoked; revoked_at = some now; updated_at = now }) s.shares;
  changes = s.changes ++ share_change workspace_id id "revoke" ∷ [];
}

unfoldable pub revoke : ℕ → ℕ → ℕ → Store → Result Error Store
revoke workspace_id id now s =
    guard (any (is_revocable workspace_id id) s.shares) record_not_found
    >> ok (with_revocation workspace_id id now s)

abbrev pub is_due : ℕ → Share → Bool
is_due now x = is_active x.status && leb x.expires_at now

unfoldable pub expire : ℕ → Store → List Share × Store
expire now s = (
  select (is_due now) s.shares,
  record s {
    shares =
        update_where (is_due now) (λ x. record x { status = expired; updated_at = now }) s.shares;
    changes =
        s.changes
        ++ map (λ (x : Share). share_change x.workspace_id x.id "expire")
            (select (is_due now) s.shares);
  },
)
