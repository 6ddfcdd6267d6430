-- ===== src/Identity/RateLimit/Tables.antt =====
-- packages/identity/src/rate-limit.ts: what the map of windows answers after each write.
use stigmer_apps.Common.{
  Text, text_eq, text_eq_iff, text_eq_refl, Table, table_get, table_has, table_set, table_get-set,
  table_delete, table_has-false, none, some, [], ◌∷◌, ◌≡◌, refl, true, false, ℕ, ◌<◌, arith,
}
use stigmer_apps.Identity.RateLimit.{
  Window, Limits, expired, current, fresh, write_back, drop_expired, bounded, email_window,
}

module _ (l : Limits) (now : ℕ) where
  pub table_has-some :
      (e : Text) (t : Table Window) {w : Window} → table_get e t ≡ some w → table_has e t ≡ true
  unfolding table_has
  table_has-some e t h = ground (arith, table_has-false e t)

  -- A window that is not over survives the sweep.
  pub drop_expired-kept :
      (e : Text) (t : Table Window) (w : Window)
      → table_get e t ≡ some w
      → expired l now w ≡ false
      → table_get e (drop_expired l now t) ≡ some w
  unfolding table_get drop_expired
  drop_expired-kept e [] w h k = cc
  drop_expired-kept e ((j, v) ∷ t) w h k = ground (arith, drop_expired-kept e t w)

  pub bounded-kept :
      (e : Text) (t : Table Window) (w : Window)
      → table_get e t ≡ some w
      → expired l now w ≡ false
      → table_get e (bounded l now t) ≡ some w
  unfolding bounded
  bounded-kept e t w h k = ground (arith, drop_expired-kept e t w)

  -- A write under another email.
  pub write_back-other :
      (e j : Text) (v : Window) (t : Table Window)
      → text_eq j e ≡ false
      → table_get e (write_back l now j v t) ≡ table_get e t
  unfolding write_back
  write_back-other e j v t h = ground (arith, table_get-set j e v t)

  pub write_back-same :
      (e : Text) (v : Window) (t : Table Window) (w : Window)
      → table_get e t ≡ some w
      → table_get e (write_back l now e v t) ≡ some v
  unfolding write_back
  write_back-same e v t w h =
      ground (arith, table_get-set e e v t, text_eq_refl e, table_has-some e t h)

  -- The window a call sees: the one in the map if it is not over, else a fresh one.
  abbrev pub window_of : Text → Table Window → Window
  window_of e t = elim (table_get e t) [ none ↦ fresh l now | some w ↦ current l now w ]

  pub email_window-seen : (e : Text) (t : Table Window) → (email_window l now e t).0 ≡ window_of e t
  unfolding email_window
  email_window-seen e t = ground arith

  -- With a window of positive length the map holds the window that the call saw.
  pub email_window-held :
      (e : Text) (t : Table Window)
      → 0 < l.window_ms
      → table_get e (email_window l now e t).1 ≡ some (window_of e t)
  unfolding email_window
  email_window-held e t h = grind (
    arith,
    write_back-same e (fresh l now) (bounded l now (table_set e (fresh l now) t)) (fresh l now),
    bounded-kept e (table_set e (fresh l now) t) (fresh l now),
    table_get-set e e (fresh l now) t,
    text_eq_refl e,
    λ (w : Window). write_back-same e (current l now w) t w,
  )

  -- A window that is not over is the one the call sees and keeps.
  pub email_window-live :
      (e : Text) (t : Table Window) (w : Window)
      → table_get e t ≡ some w
      → expired l now w ≡ false
      → ((email_window l now e t).0 ≡ w) × (table_get e (email_window l now e t).1 ≡ some w)
  unfolding email_window
  email_window-live e t w h k = ground (arith, write_back-same e w t w)

  -- The call for one email leaves the other windows that are not over.
  pub email_window-other :
      (e j : Text) (t : Table Window) (w : Window)
      → text_eq j e ≡ false
      → table_get e t ≡ some w
      → expired l now w ≡ false
      → table_get e (email_window l now j t).1 ≡ some w
  unfolding email_window
  email_window-other e j t w d h k = grind (
    arith,
    write_back-other e j (fresh l now) (bounded l now (table_set j (fresh l now) t)),
    bounded-kept e (table_set j (fresh l now) t) w,
    table_get-set j e (fresh l now) t,
    λ (v : Window). write_back-other e j (current l now v) t,
  )

-- A deletion of another email.
pub table_delete-other :
    (e j : Text) (t : Table Window)
    → text_eq j e ≡ false
    → table_get e (table_delete j t) ≡ table_get e t
unfolding table_get table_delete
table_delete-other e j [] h = refl
table_delete-other e j ((i, u) ∷ t) h =
    ground (arith, text_eq_iff i j, text_eq_iff i e, text_eq_iff j e, table_delete-other e j t h)
