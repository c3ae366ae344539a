-- ===== src/Notifications/Inbox.antt =====
-- The notifications of a user inside the product, and the categories that the user switches off.
use Prim.Native.String.{String}
use text.Mathlib.Text.{◌==◌ as str_eq}
use file_share_manager.Prelude.{
  ℕ, ◌==◌, Bool, true, false, ◌&&◌, not, List, [], ◌∷◌, ◌++◌, Option, none, some, any, select,
  find_first, update_where, length, if◌then◌else◌,
}

-- `other` stands for every text that is none of the four categories.
pub data UserCategory : Type 0 where
  collaboration task security share : UserCategory
  other : String → UserCategory

pub record UserNotification : Type 0 where
  pub id : String
  pub dedup_key : String
  pub user_id : ℕ
  pub workspace_id : Option ℕ
  pub event_type : String
  pub category : UserCategory
  pub severity : String
  pub title : String
  pub content : String
  pub target_type : String
  pub target_id : String
  pub is_read : Bool
  pub read_at : Option ℕ
  pub created_at : ℕ
  pub updated_at : ℕ

pub record UserNotificationPreference : Type 0 where
  pub user_id : ℕ
  pub collaboration_enabled : Bool
  pub task_enabled : Bool
  pub security_enabled : Bool
  pub share_enabled : Bool
  pub created_at : ℕ
  pub updated_at : ℕ

pub record InboxTables : Type 0 where
  pub notifications : List UserNotification
  pub preferences : List UserNotificationPreference

-- `OnConflict{DoNothing: true}`, row by row.
unfoldable pub insert_notifications :
    List UserNotification → List UserNotification → List UserNotification
insert_notifications [] stored = stored
insert_notifications (row ∷ rows) stored = insert_notifications rows (
    if any (λ (x : UserNotification). str_eq x.dedup_key row.dedup_key) stored
    then stored
    else stored ++ row ∷ [])

unfoldable pub create_user_notifications : List UserNotification → InboxTables → InboxTables
create_user_notifications rows t = record t {
  notifications = insert_notifications rows t.notifications;
}

abbrev pub is_unread : ℕ → UserNotification → Bool
is_unread user_id x = x.user_id == user_id && not x.is_read

unfoldable pub count_unread_user_notifications : ℕ → InboxTables → ℕ
count_unread_user_notifications user_id t = length (select (is_unread user_id) t.notifications)

-- The identity comes without the blanks that `TrimSpace` removes, here and below.
unfoldable pub get_user_notification : ℕ → String → InboxTables → Option UserNotification
get_user_notification user_id id t =
    find_first (λ (x : UserNotification). x.user_id == user_id && str_eq x.id id) t.notifications

abbrev pub marked_read : ℕ → UserNotification → UserNotification
marked_read now x = record x { is_read = true; read_at = some now; updated_at = now }

unfoldable pub mark_user_notification_read : ℕ → String → ℕ → InboxTables → InboxTables
mark_user_notification_read user_id id now t = record t {
  notifications =
      update_where (λ x. is_unread user_id x && str_eq x.id id) (marked_read now) t.notifications;
}

-- The number of updated rows, and the new tables.
unfoldable pub mark_all_user_notifications_read : ℕ → ℕ → InboxTables → ℕ × InboxTables
mark_all_user_notifications_read user_id now t = (
  length (select (is_unread user_id) t.notifications),
  record t { notifications = update_where (is_unread user_id) (marked_read now) t.notifications },
)

-- A user without a row has every category switched on.
abbrev pub default_preference : ℕ → UserNotificationPreference
default_preference user_id = record {
  user_id = user_id;
  collaboration_enabled = true;
  task_enabled = true;
  security_enabled = true;
  share_enabled = true;
  created_at = 0;
  updated_at = 0;
}

abbrev pub or_default : ℕ → Option UserNotificationPreference → UserNotificationPreference
or_default user_id none = default_preference user_id
or_default user_id (some preference) = preference

unfoldable pub get_user_notification_preference : ℕ → InboxTables → UserNotificationPreference
get_user_notification_preference user_id t =
    or_default user_id
      (find_first (λ (p : UserNotificationPreference). p.user_id == user_id) t.preferences)

-- What a row takes from the new one.
abbrev pub with_preference :
    UserNotificationPreference → UserNotificationPreference → UserNotificationPreference
with_preference new p = record p {
  collaboration_enabled = new.collaboration_enabled;
  task_enabled = new.task_enabled;
  security_enabled = new.security_enabled;
  share_enabled = new.share_enabled;
  updated_at = new.updated_at;
}

-- A time that is not set, the number 0, is filled with the clock.
abbrev pub stamped_preference : ℕ → UserNotificationPreference → UserNotificationPreference
stamped_preference now p = record p {
  created_at = now;
  updated_at = if p.updated_at == 0 then now else p.updated_at;
}

unfoldable pub save_user_notification_preference :
    UserNotificationPreference → ℕ → InboxTables → InboxTables
save_user_notification_preference preference now t =
    let new = stamped_preference now preference in
    record t {
      preferences =
          if any (λ (p : UserNotificationPreference). p.user_id == new.user_id) t.preferences
          then update_where (λ (p : UserNotificationPreference). p.user_id == new.user_id)
              (with_preference new) t.preferences
          else t.preferences ++ new ∷ [];
    }

-- `ValidUserCategory`, of a text without blanks around it.
abbrev pub valid_user_category : UserCategory → Bool
valid_user_category (UserCategory.other _) = false
valid_user_category _ = true

unfoldable pub user_preference_allows : Option UserNotificationPreference → UserCategory → Bool
user_preference_allows none category = true
user_preference_allows (some p) collaboration = p.collaboration_enabled
user_preference_allows (some p) task = p.task_enabled
user_preference_allows (some p) security = p.security_enabled
user_preference_allows (some p) share = p.share_enabled
user_preference_allows (some p) (UserCategory.other _) = false
