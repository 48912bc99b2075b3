-- ===== src/Notification/Isolation.antt =====
-- What the requests of one user do to that user's notifications and to the others'.
use micro_blog.Base.{
  ◌≡◌, ◌⊎◌, inl, inr, refl, ap, ◌∙◌, arith, String, string_eq, ◌==◌, ==_iff, Bool, true, false, not,
  ◌&&◌, none, some, List, [], ◌∷◌, find, filter, map, truthy, Bool-cases, Option-cases,
}
use micro_blog.Sql.{update, delete, count}
use micro_blog.Shared.Errors.{sent, refused}
use micro_blog.Notification.Service.{
  Notification, NotificationDb, row, is_of, is_own, as_read, mark_as_read, mark_all_as_read,
  delete_user_notifications, put_read, put_read_all,
}

-- What one user can ask the service to change, and what it does when that user is deleted.
pub data Change : Type 0 where
  read_one : (id : String) → Change
  read_all : Change
  deletion : Change

unfoldable pub change : String → Change → NotificationDb → NotificationDb
unfolding put_read put_read_all delete_user_notifications
change user_id (read_one id) s = (put_read id (some user_id) s).1
change user_id read_all s = (put_read_all (some user_id) s).1
change user_id deletion s = delete_user_notifications user_id s

module _ (user_id other : String) (distinct : (user_id == other) ≡ false) where
  filter-update_other :
      (p : Notification → Bool)
      → ((n : Notification) → p n ≡ true → is_of user_id n ≡ true)
      → (ns : List Notification)
      → filter (is_of other) (update p as_read ns) ≡ filter (is_of other) ns
  filter-update_other p h [] = refl
  filter-update_other p h (n ∷ ns) = ground (
    arith,
    filter-update_other p h ns,
    h n,
    ==_iff n.user_id user_id,
    ==_iff n.user_id other,
    ==_iff user_id other,
  )

  filter-delete_other :
      (ns : List Notification)
      → filter (is_of other) (delete (is_of user_id) ns) ≡ filter (is_of other) ns
  filter-delete_other [] = refl
  filter-delete_other (n ∷ ns) = ground (
    arith,
    filter-delete_other ns,
    ==_iff n.user_id user_id,
    ==_iff n.user_id other,
    ==_iff user_id other,
  )

put_read-update :
    (id user_id : String) (s : NotificationDb)
    → ((put_read id (some user_id) s).1.notifications
        ≡ update (is_own id user_id) as_read s.notifications)
      ⊎ ((put_read id (some user_id) s).1.notifications ≡ s.notifications)
unfolding put_read mark_as_read
put_read-update id user_id s = elim (Bool-cases (truthy (some user_id))) [
  | inl e ↦ inl (rw e refl)
  | inr e ↦ inr (rw e refl)
]

abbrev is_unread : String → Notification → Bool
is_unread user_id n = is_of user_id n && not n.read

put_read_all-update :
    (user_id : String) (s : NotificationDb)
    → ((put_read_all (some user_id) s).1.notifications
        ≡ update (is_unread user_id) as_read s.notifications)
      ⊎ ((put_read_all (some user_id) s).1.notifications ≡ s.notifications)
unfolding put_read_all mark_all_as_read
put_read_all-update user_id s = elim (Bool-cases (truthy (some user_id))) [
  | inl e ↦ inl (rw e refl)
  | inr e ↦ inr (rw e refl)
]

-- Whatever one user changes, and also that user's deletion, leaves the notifications of every other
-- user as they are, in their order.
pub change-isolated :
    (user_id other : String)
    → (user_id == other) ≡ false
    → (c : Change) (s : NotificationDb)
    → filter (is_of other) (change user_id c s).notifications ≡ filter (is_of other) s.notifications
unfolding change delete_user_notifications
change-isolated user_id other d (read_one id) s = elim (put_read-update id user_id s) [
  | inl e ↦
      ap (filter (is_of other)) e
      ∙ filter-update_other user_id other d (is_own id user_id) (λ n h. ground arith)
          s.notifications
  | inr e ↦ ap (filter (is_of other)) e
]
change-isolated user_id other d read_all s = elim (put_read_all-update user_id s) [
  | inl e ↦
      ap (filter (is_of other)) e
      ∙ filter-update_other user_id other d (is_unread user_id) (λ n h. ground arith)
          s.notifications
  | inr e ↦ ap (filter (is_of other)) e
]
change-isolated user_id other d deletion s = filter-delete_other user_id other d s.notifications

update-unmatched :
    (p : Notification → Bool) (ns : List Notification) → find p ns ≡ none → update p as_read ns ≡ ns
update-unmatched p [] h = refl
update-unmatched p (n ∷ ns) h = ground (arith, update-unmatched p ns)

-- PUT /notifications/:id/read by a signed-in user answers with the user's own notification, now read,
-- or with a 404 where that user has none with this identifier, and then it changes nothing.
pub put_read-cases :
    (id user_id : String) (s : NotificationDb)
    → truthy (some user_id) ≡ true
    → ((n : Notification) × (find (is_own id user_id) s.notifications ≡ some n)
        × ((put_read id (some user_id) s).0 ≡ sent 200 (row (as_read n))))
      ⊎ ((find (is_own id user_id) s.notifications ≡ none)
          × (put_read id (some user_id) s ≡ (refused 404 "Notification not found", s)))
unfolding put_read mark_as_read
put_read-cases id user_id s t = elim (Option-cases (find (is_own id user_id) s.notifications)) [
  | inl e ↦ inr (e, rw (t, e, update-unmatched (is_own id user_id) s.notifications e) refl)
  | inr (n, e) ↦ inl (n, e, rw (t, e) refl)
]

none_unread :
    (user_id : String) (ns : List Notification)
    → count
        (λ n. is_of user_id n && not n.read)
        (update (λ n. is_of user_id n && not n.read) as_read ns)
      ≡ 0
none_unread user_id [] = refl
none_unread user_id (n ∷ ns) = ground (arith, none_unread user_id ns)

same_ids :
    (p : Notification → Bool) (ns : List Notification)
    → map (λ n. n.id) (update p as_read ns) ≡ map (λ n. n.id) ns
same_ids p [] = refl
same_ids p (n ∷ ns) = ground (arith, same_ids p ns)

-- After PUT /notifications/read-all a signed-in user has no unread notification, and no notification of
-- anyone was added, dropped or moved.
pub put_read_all-none_unread :
    (user_id : String) (s : NotificationDb)
    → truthy (some user_id) ≡ true
    → (count (λ n. is_of user_id n && not n.read) (put_read_all (some user_id) s).1.notifications
        ≡ 0)
      × (map (λ n. n.id) (put_read_all (some user_id) s).1.notifications
          ≡ map (λ n. n.id) s.notifications)
unfolding put_read_all mark_all_as_read
put_read_all-none_unread user_id s t =
    (rw t (none_unread user_id s.notifications), rw t (same_ids _ s.notifications))
