-- ===== src/Notifications/Reading.antt =====
-- What a user reads back from server/internal/dao/notification.go: the count of unread
-- notifications and the saved preference.
use file_share_manager.Prelude.{
  find_first-updated, ℕ, ◌==◌, ==_refl, ◌≡◌, ◌≢◌, refl, sym, ap, ◌∙◌, subst, inl, inr, Bool, false,
  false≢true, List, [], ◌∷◌, none, some, length, any, any-In, In-any, select, find_first,
  find_first_sound, find_first-none, find_first-append, update_where, Bool-cases, Option-cases,
  arith, if◌then◌else◌,
}
use file_share_manager.Notifications.Inbox.{
  UserNotification, UserNotificationPreference, InboxTables, is_unread, marked_read,
  count_unread_user_notifications, mark_all_user_notifications_read, or_default, with_preference,
  stamped_preference, get_user_notification_preference, save_user_notification_preference,
}

unread_after :
    (user now : ℕ) (xs : List UserNotification)
    → select (is_unread user) (update_where (is_unread user) (marked_read now) xs) ≡ []
unread_after user now [] = refl
unread_after user now (x ∷ xs) = ground (arith, unread_after user now xs)

others_unread :
    (user other now : ℕ) (xs : List UserNotification)
    → other ≢ user
    → length (select (is_unread other) (update_where (is_unread user) (marked_read now) xs))
      ≡ length (select (is_unread other) xs)
others_unread user other now [] n = refl
others_unread user other now (x ∷ xs) n = ground (arith, others_unread user other now xs n)

-- After all notifications of a user are marked as read none of them is unread, and the counts of
-- other users are those of before.
pub mark_all_user_notifications_read-count :
    (user now : ℕ) (t : InboxTables)
    → (count_unread_user_notifications user (mark_all_user_notifications_read user now t).1 ≡ 0)
      × ((other : ℕ)
          → other ≢ user
          → count_unread_user_notifications other (mark_all_user_notifications_read user now t).1
            ≡ count_unread_user_notifications other t)
unfolding count_unread_user_notifications mark_all_user_notifications_read
mark_all_user_notifications_read-count user now t = (
  ap length (unread_after user now t.notifications),
  λ other n. others_unread user other now t.notifications n,
)

-- The categories that a preference switches on.
abbrev pub SameCategories : UserNotificationPreference → UserNotificationPreference → Type 0
SameCategories p q =
    (p.collaboration_enabled ≡ q.collaboration_enabled)
    × (p.task_enabled ≡ q.task_enabled)
    × (p.security_enabled ≡ q.security_enabled)
    × (p.share_enabled ≡ q.share_enabled)

abbrev is_of : ℕ → UserNotificationPreference → Bool
is_of user p = p.user_id == user

-- A saved preference is read back with its categories, whether the user had one before or not.
pub get-save_user_notification_preference :
    (p : UserNotificationPreference) (now : ℕ) (t : InboxTables)
    → SameCategories
        (get_user_notification_preference p.user_id (save_user_notification_preference p now t))
        p
unfolding get_user_notification_preference save_user_notification_preference
get-save_user_notification_preference p now t =
    elim (Option-cases (find_first (is_of p.user_id) t.preferences)) [
      | inl e ↦ rw (absent e) (
          subst (λ o. SameCategories (or_default p.user_id o) p)
            (sym (
              find_first-append (is_of p.user_id) t.preferences (stamped_preference now p ∷ []) e
              ∙ appended))
            (refl, refl, refl, refl))
      | inr (x, e) ↦
          let (i, k) = find_first_sound (is_of p.user_id) t.preferences x e in
          rw (In-any (is_of p.user_id) x t.preferences i k) (
            subst (λ o. SameCategories (or_default p.user_id o) p)
              (sym (
                find_first-updated (is_of p.user_id) (is_of p.user_id)
                  (with_preference (stamped_preference now p)) t.preferences x (λ y. refl) e
                ∙ ap (λ b. some (if b then with_preference (stamped_preference now p) x else x)) k))
              (refl, refl, refl, refl))
    ]
  where
    absent :
        find_first (is_of p.user_id) t.preferences ≡ none
        → any (is_of p.user_id) t.preferences ≡ false
    absent e = elim (Bool-cases (any (is_of p.user_id) t.preferences)) [
      | inl a ↦
          let (x, i, k) = any-In (is_of p.user_id) t.preferences a in
          absurd (false≢true (sym (find_first-none (is_of p.user_id) x t.preferences e i) ∙ k))
      | inr a ↦ a
    ]

    appended :
        find_first (is_of p.user_id) (stamped_preference now p ∷ [])
        ≡ some (stamped_preference now p)
    appended = rw (==_refl p.user_id) refl
