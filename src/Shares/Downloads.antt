-- ===== src/Shares/Downloads.antt =====
-- `ClaimDownload` of server/internal/dao/share.go: one transaction that takes a download slot.
use Prim.Native.String.{String}
use text.Mathlib.Text.{◌==◌ as str_eq}
use file_share_manager.Prelude.{
  ℕ, suc, ◌==◌, ltb, Bool, true, false, ◌&&◌, ◌||◌, not, [], ◌∷◌, ◌++◌, Option, Result, ok, err,
  ◌>>=◌, ◌>>◌, guard, or_fail, find_first, update_where,
}
use file_share_manager.Files.Model.{clean, StorageClass, glacier, restoring}
use file_share_manager.Shares.Store.{
  ShareStatus, active, revoked, expired, Share, ShareItem, Store, Error, share_not_found,
  share_expired, share_revoked, share_limit, share_item, share_unsafe, share_restore_required,
  get_by_token_hash, below_limit, share_change,
}

unfoldable pub share_item_safe_for_external_download : ShareItem → Bool
share_item_safe_for_external_download item = elim item.scan_status [ clean ↦ true | _ ↦ false ]

abbrev pub is_archived : StorageClass → Bool
is_archived glacier = true
is_archived restoring = true
is_archived _ = false

-- The tests on the share: its status, its expiry and its limit.
unfoldable pub check_status : ShareStatus → Result Error (Unit {0})
check_status active = ok tt
check_status revoked = err share_revoked
check_status expired = err share_expired

unfoldable pub check_share : ℕ → Share → Result Error (Unit {0})
unfolding check_status
check_share now share = do
  check_status share.status
  guard (ltb now share.expires_at) share_expired
  guard (below_limit share.max_downloads share.download_count) share_limit

-- `Order("id ASC").First`: the items stand in the order of their identities.
unfoldable pub find_item : ℕ → String → Store → Option ShareItem
find_item share_id item_public_id s =
    find_first
      (λ x.
        x.share_id == share_id && (str_eq item_public_id "" || str_eq x.public_id item_public_id))
      s.items

abbrev pub count_download : ℕ → Share → Share
count_download now x = record x { download_count = suc x.download_count; updated_at = now }

-- The store with one more download of the share.
abbrev pub with_download : ℕ → Share → Store → Store
with_download now share s = record s {
  shares =
      update_where (λ x. x.id == share.id)
        (λ x. record x { download_count = suc share.download_count; updated_at = now }) s.shares;
  changes = s.changes ++ share_change share.workspace_id share.id "claim_download" ∷ [];
}

-- The update of an expired share is lost: the error that follows rolls the transaction back.
unfoldable pub claim_download :
    String → String → ℕ → Store → Result Error (Share × ShareItem × Store)
unfolding check_share find_item share_item_safe_for_external_download
claim_download token_hash item_public_id now s = do
  share ← or_fail (get_by_token_hash token_hash s) share_not_found
  check_share now share
  item ← or_fail (find_item share.id item_public_id s) share_item
  guard (share_item_safe_for_external_download item) share_unsafe
  guard (not (is_archived item.storage_class)) share_restore_required
  ok (count_download now share, item, with_download now share s)
