-- ===== src/Tests/Reading.antt =====
-- A user with one unread notification, who switches two categories off.
use file_share_manager.Prelude.{ℕ, ◌≡◌, ◌≢◌, true, false, [], ◌∷◌, none}
use file_share_manager.Notifications.Inbox.{
  task, UserNotification, UserNotificationPreference, InboxTables, count_unread_user_notifications,
  mark_all_user_notifications_read, get_user_notification_preference,
  save_user_notification_preference,
}
use file_share_manager.Notifications.Reading.{
  mark_all_user_notifications_read-count, SameCategories, get-save_user_notification_preference,
}

abbrev message : UserNotification
message = record {
  id = "m";
  dedup_key = "k";
  user_id = 7;
  workspace_id = none;
  event_type = "task:batch_download_completed";
  category = task;
  severity = "info";
  title = "done";
  content = "done";
  target_type = "";
  target_id = "";
  is_read = false;
  read_at = none;
  created_at = 100;
  updated_at = 100;
}

abbrev inbox : InboxTables
inbox = record { notifications = message ∷ []; preferences = [] }

mark_all_user_notifications_read-count_example :
    (count_unread_user_notifications 7 (mark_all_user_notifications_read 7 200 inbox).1 ≡ 0)
    × ((other : ℕ)
        → other ≢ 7
        → count_unread_user_notifications other (mark_all_user_notifications_read 7 200 inbox).1
          ≡ count_unread_user_notifications other inbox)
mark_all_user_notifications_read-count_example = mark_all_user_notifications_read-count 7 200 inbox

abbrev quiet : UserNotificationPreference
quiet = record {
  user_id = 7;
  collaboration_enabled = false;
  task_enabled = true;
  security_enabled = true;
  share_enabled = false;
  created_at = 0;
  updated_at = 0;
}

get-save_user_notification_preference_example :
    SameCategories
      (get_user_notification_preference 7 (save_user_notification_preference quiet 200 inbox))
      quiet
get-save_user_notification_preference_example =
    get-save_user_notification_preference quiet 200 inbox
