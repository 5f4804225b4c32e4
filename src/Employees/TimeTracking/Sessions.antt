-- ===== src/Employees/TimeTracking/Sessions.antt =====
-- Clocking in and out in a state where open entries are unique, and a break that a clock-out leaves.
use food_tech_crm_backend.Prelude.{
  ℕ, Option, none, some, ◌≡◌, arith, refl, subst, ap, ◌∙◌, Bool, true, false, ◌==◌, Bool-cases, inl,
  inr, any_where, first_where, if◌then◌else◌, [], ◌∷◌,
}
use food_tech_crm_backend.Prelude.Int.{ℤ}
use food_tech_crm_backend.Prelude.Queries.{
  any_where-cons, any_where-later, any_where_head, any_where_tail, any_where-first,
}
use food_tech_crm_backend.Prelude.Unique.{IsUnique}
use food_tech_crm_backend.Prelude.Table.{Table, lookup, update}
use food_tech_crm_backend.Prelude.Exec.{Result, ok, err}
use food_tech_crm_backend.Core.Db.{BusinessMembership}
use food_tech_crm_backend.Employees.Db.{
  TimeEntry, clocked_in, clocked_out, TimeEntryBreak, CheckType, LocationVerificationLog, Db, Error,
  already_clocked_in, no_open_time_entry, attribute_error, geofence_violation,
}
use food_tech_crm_backend.Employees.TimeTracking.{
  Distance, Outside, GeofenceCheckResult, setting_for, get_applicable_geofence, verify_geofence,
  violation, is_clocked_in, is_open_entry, new_entry, link_log, store_entry, clock_in, closed_entry,
  close_entry, clock_out, is_open_break, end_break,
}
use food_tech_crm_backend.Employees.TimeTracking.Outcomes.{
  logged, clock_in_branches, clock_out_lem, end_break_lem,
}
use food_tech_crm_backend.Employees.OpenRows.{IsConsistent, no_violation}

-- A clock in, on every branch, where a membership has at most one open entry: with an open entry it
-- is refused and nothing changes; otherwise the check is logged, and where it passed an open entry is
-- stored that the log names, and where it did not no entry is stored, the call fails with the distance
-- and the radius, and the log is kept. The database's constraint never refuses the entry.
pub clock_in_lem :
    (outside : Outside) (pk : ℕ) (lat lng : Option ℤ) (m : BusinessMembership) (db : Db)
    → IsConsistent db
    → lookup pk db.memberships ≡ some m
    → let result = verify_geofence outside.distance m lat lng db in
      let entry = new_entry outside.now pk lat lng result in
      let after = logged outside pk CheckType.clock_in lat lng result none db in
      clock_in outside pk lat lng db ≡ (
        if any_where (is_open_entry pk) db.time_entries
        then (err already_clocked_in, db)
        else if result.passed
        then (ok entry, link_log outside.log_id outside.id (store_entry outside.id entry after))
        else (err (violation result), after))
clock_in_lem outside pk lat lng m db ((u, s), v, w) row =
    rw (clock_in_branches outside pk lat lng m db row)
      (elim (Bool-cases (any_where (is_open_entry pk) db.time_entries)) [
        | inl busy ↦ rw busy refl
        | inr free ↦ rw (free, no_violation pk db.time_entries s free) refl
      ])

-- A clock in of a membership that has no open entry, where open entries are unique. The check is on the
-- log under its new key, with the position, the distance and the verdict, and it names the new entry
-- where it passed and no entry where it did not. Where it passed, the call returns the entry, which
-- is the one row added to the entries: open, of this membership, from now on, with the position and
-- the verdict. Where it did not, no entry is added, and the call fails with the distance and the radius.
pub clock_in-stored :
    (outside : Outside) (pk : ℕ) (lat lng : Option ℤ) (m : BusinessMembership) (db : Db)
    → IsConsistent db
    → lookup pk db.memberships ≡ some m
    → any_where (is_open_entry pk) db.time_entries ≡ false
    → let v = verify_geofence outside.distance m lat lng db in
      let called = clock_in outside pk lat lng db in
      let entry : TimeEntry = record {
        membership = pk;
        clock_in_at = outside.now;
        clock_out_at = none;
        status = clocked_in;
        clock_in_lat = lat;
        clock_in_lng = lng;
        clock_out_lat = none;
        clock_out_lng = none;
        clock_in_distance_meters = v.distance_meters;
        clock_out_distance_meters = none;
        clock_in_within_geofence = v.within_geofence;
        clock_out_within_geofence = none;
        auto_closed_on_deactivation = false;
      } in
      let log : LocationVerificationLog = record {
        membership = pk;
        time_entry = if v.passed then some outside.id else none;
        geofence_setting = elim v.setting [ none ↦ none | some (k, _) ↦ some k ];
        check_type = CheckType.clock_in;
        reported_latitude = lat;
        reported_longitude = lng;
        distance_meters = v.distance_meters;
        within_geofence = v.within_geofence;
        passed = v.passed;
      } in
      let failure : Error = elim v.setting [
        | none ↦ attribute_error
        | some (_, s) ↦
            geofence_violation (elim v.distance_meters [ none ↦ 0 | some d ↦ d ]) s.radius_meters
      ] in
      (called.0 ≡ (if v.passed then ok entry else err failure))
      × (called.1.time_entries
          ≡ (if v.passed then (outside.id, entry) ∷ db.time_entries else db.time_entries))
      × (lookup outside.log_id called.1.verification_logs ≡ some log)
clock_in-stored outside pk lat lng m db h row free =
    let v = verify_geofence outside.distance m lat lng db in
    let lem = clock_in_lem outside pk lat lng m db h row in
    elim (Bool-cases v.passed) [
      | inl e ↦ (ground arith, ground arith, ground arith)
      | inr e ↦ (ground arith, ground arith, ground arith)
    ]

setting_for-same :
    (business : ℕ) (location : Option ℕ) (db d : Db)
    → d.geofence_settings ≡ db.geofence_settings
    → setting_for business location d ≡ setting_for business location db
unfolding setting_for
setting_for-same business none db d e = rw e refl
setting_for-same business (some l) db d e = rw e refl

-- The verdict reads nothing but the settings.
verify_geofence-same :
    (distance : Distance) (m : BusinessMembership) (x y : Option ℤ) (db d : Db)
    → d.geofence_settings ≡ db.geofence_settings
    → verify_geofence distance m x y d ≡ verify_geofence distance m x y db
unfolding verify_geofence get_applicable_geofence
verify_geofence-same distance m x y db d e =
    rw (verify_geofence, get_applicable_geofence, setting_for-same m.business m.location db d e)
      refl

clock_out_passed :
    (outside : Outside) (pk : ℕ) (m : BusinessMembership) (lat lng : Option ℤ) (id : ℕ)
    (entry : TimeEntry) (db : Db)
    → first_where (is_open_entry pk) db.time_entries ≡ some (id, entry)
    → (verify_geofence outside.distance m lat lng db).passed ≡ true
    → let result = verify_geofence outside.distance m lat lng db in
      let after = logged outside pk CheckType.clock_out lat lng result (some id) db in
      clock_out outside (pk, m) lat lng db ≡ (
        ok (closed_entry outside.now lat lng result entry),
        close_entry outside.now id lat lng result after,
      )
clock_out_passed outside pk m lat lng id entry db found passed =
    rw (clock_out_lem outside pk m lat lng db, found, passed) refl

-- The state after a clock in that passed.
abbrev opened : Outside → ℕ → Option ℤ → Option ℤ → BusinessMembership → Db → Db
opened outside pk lat lng m db =
    let result = verify_geofence outside.distance m lat lng db in
    link_log outside.log_id outside.id (
      store_entry outside.id (new_entry outside.now pk lat lng result)
        (logged outside pk CheckType.clock_in lat lng result none db))

closed_none :
    (pk id : ℕ) (f : TimeEntry → TimeEntry) (t : Table TimeEntry)
    → ((e : TimeEntry) → is_clocked_in (f e) ≡ false)
    → any_where (is_open_entry pk) t ≡ false
    → any_where (is_open_entry pk) (update id f t) ≡ false
closed_none pk id f [] closes free = refl
closed_none pk id f ((k, e) ∷ t) closes free =
    any_where-cons (is_open_entry pk) (k, if k == id then f e else e) (update id f t)
      (row (k == id) (any_where_head (is_open_entry pk) (k, e) t free))
      (closed_none pk id f t closes (any_where_tail (is_open_entry pk) (k, e) t free))
  where
    row :
        (b : Bool)
        → is_open_entry pk (k, e) ≡ false
        → is_open_entry pk (k, if b then f e else e) ≡ false
    row true h = rw (closes e) refl
    row false h = h

-- Closing the first open entry of a membership leaves it none.
closes_last :
    (pk id : ℕ) (e : TimeEntry) (f : TimeEntry → TimeEntry) (t : Table TimeEntry)
    → ((e : TimeEntry) → is_clocked_in (f e) ≡ false)
    → IsUnique is_clocked_in (λ e. e.membership) t
    → first_where (is_open_entry pk) t ≡ some (id, e)
    → any_where (is_open_entry pk) (update id f t) ≡ false
closes_last pk id e f [] closes u h = refl
closes_last pk id e f ((k, d) ∷ t) closes (free, u) h =
    any_where-cons (is_open_entry pk) (k, if k == id then f d else d) (update id f t)
      (head (k == id) refl)
      (elim (Bool-cases (is_open_entry pk (k, d))) [
        | inl o ↦ closed_none pk id f t closes (alone o)
        | inr c ↦ closes_last pk id e f t closes u (ground arith)
      ])
  where
    head : (c : Bool) → (k == id) ≡ c → is_open_entry pk (k, if c then f d else d) ≡ false
    head true e = rw (closes d) refl
    head false e = elim (Bool-cases (is_open_entry pk (k, d))) [ inl o ↦ ground arith | inr o ↦ o ]

    alone : is_open_entry pk (k, d) ≡ true → any_where (is_open_entry pk) t ≡ false
    alone o =
        let same : d.membership ≡ pk = ground arith in
        let rest : any_where (is_open_entry d.membership) t ≡ false = ground arith in
        subst (λ j. any_where (is_open_entry j) t ≡ false) same rest

-- A membership that has no open entry and whose checks pass clocks in and then out: the clock-out
-- finds the entry of the clock-in and closes it. The row has the times, the positions and the verdicts
-- of both calls, and no entry of the membership is left open.
pub clock_out-clock_in :
    (outside : Outside) (pk : ℕ) (lat lng : Option ℤ) (m : BusinessMembership) (later : Outside)
    (x y : Option ℤ) (db : Db)
    → IsConsistent db
    → lookup pk db.memberships ≡ some m
    → any_where (is_open_entry pk) db.time_entries ≡ false
    → (verify_geofence outside.distance m lat lng db).passed ≡ true
    → (verify_geofence later.distance m x y db).passed ≡ true
    → let v = verify_geofence outside.distance m lat lng db in
      let w = verify_geofence later.distance m x y db in
      let called = clock_out later (pk, m) x y (clock_in outside pk lat lng db).1 in
      let closed : TimeEntry = record {
        membership = pk;
        clock_in_at = outside.now;
        clock_out_at = some later.now;
        status = clocked_out;
        clock_in_lat = lat;
        clock_in_lng = lng;
        clock_out_lat = x;
        clock_out_lng = y;
        clock_in_distance_meters = v.distance_meters;
        clock_out_distance_meters = w.distance_meters;
        clock_in_within_geofence = v.within_geofence;
        clock_out_within_geofence = w.within_geofence;
        auto_closed_on_deactivation = false;
      } in
      (called.0 ≡ ok closed)
      × (lookup outside.id called.1.time_entries ≡ some closed)
      × (any_where (is_open_entry pk) called.1.time_entries ≡ false)
clock_out-clock_in outside pk lat lng m later x y db h row free passed passes =
    rw (after, out) (refl, ground arith, none_open verdict)
  where
    entry : TimeEntry
    entry = new_entry outside.now pk lat lng (verify_geofence outside.distance m lat lng db)

    before : Db
    before = opened outside pk lat lng m db

    after : (clock_in outside pk lat lng db).1 ≡ before
    after = rw (clock_in_lem outside pk lat lng m db h row, free, passed) refl

    same : verify_geofence later.distance m x y before ≡ verify_geofence later.distance m x y db
    same = verify_geofence-same later.distance m x y db before refl

    verdict : GeofenceCheckResult
    verdict = verify_geofence later.distance m x y db

    -- what the clock-out comes to under a verdict
    comes_to : GeofenceCheckResult → Result Error TimeEntry × Db
    comes_to w = (
      ok (closed_entry later.now x y w entry),
      close_entry later.now outside.id x y w
          (logged later pk CheckType.clock_out x y w (some outside.id) before),
    )

    out : clock_out later (pk, m) x y before ≡ comes_to verdict
    out =
        clock_out_passed later pk m x y outside.id entry before (ground arith) (rw same passes)
        ∙ ap comes_to same

    none_open :
        (w : GeofenceCheckResult)
        → any_where
            (is_open_entry pk)
            (update outside.id (closed_entry later.now x y w) before.time_entries)
          ≡ false
    none_open w =
        let closes = closed_entry later.now x y w in
        any_where-cons (is_open_entry pk)
          (outside.id, if outside.id == outside.id then closes entry else entry)
          (update outside.id closes db.time_entries) (ground arith)
          (closed_none pk outside.id closes db.time_entries (λ _. refl) free)

-- A break that is open when its membership clocks out stays open, under an entry that is closed: the
-- clock-out leaves every break as it was, and in the state after it the membership's call to end a
-- break is refused, since a break is looked for only on an open entry, and changes nothing.
pub clock_out_leaves_break :
    (outside : Outside) (pk : ℕ) (m : BusinessMembership) (lat lng : Option ℤ) (id : ℕ)
    (entry : TimeEntry) (j : ℕ) (b : TimeEntryBreak) (later : ℕ) (db : Db)
    → IsConsistent db
    → first_where (is_open_entry pk) db.time_entries ≡ some (id, entry)
    → lookup j db.breaks ≡ some b
    → b.time_entry ≡ id
    → b.break_end_at ≡ none
    → (verify_geofence outside.distance m lat lng db).passed ≡ true
    → let after = (clock_out outside (pk, m) lat lng db).1 in
      (any_where (is_open_entry pk) after.time_entries ≡ false)
      × (any_where (is_open_break id) after.breaks ≡ true)
      × (lookup j after.breaks ≡ some b)
      × (after.breaks ≡ db.breaks)
      × (end_break later pk after ≡ (err no_open_time_entry, after))
clock_out_leaves_break outside pk m lat lng id entry j b later db ((u, s), v, w) found kept of_entry
      running passed =
    rw (clock_out_passed outside pk m lat lng id entry db found passed)
      (closed, any_where-lookup j b db.breaks kept of_entry running, kept, refl, refused)
  where
    after : Db
    after =
        let result = verify_geofence outside.distance m lat lng db in
        close_entry outside.now id lat lng result
          (logged outside pk CheckType.clock_out lat lng result (some id) db)

    closed : any_where (is_open_entry pk) after.time_entries ≡ false
    closed =
        closes_last pk id entry
          (closed_entry outside.now lat lng (verify_geofence outside.distance m lat lng db))
          db.time_entries (λ _. refl) u found

    refused : end_break later pk after ≡ (err no_open_time_entry, after)
    refused =
        rw
          (
            end_break_lem later pk after,
            any_where-first (is_open_entry pk) after.time_entries closed,
          )
          refl

    any_where-lookup :
        (j : ℕ) (b : TimeEntryBreak) (t : Table TimeEntryBreak)
        → lookup j t ≡ some b
        → b.time_entry ≡ id
        → b.break_end_at ≡ none
        → any_where (is_open_break id) t ≡ true
    any_where-lookup j b [] h e r = absurd (ground arith)
    any_where-lookup j b ((k, d) ∷ t) h e r = elim (Bool-cases (k == j)) [
      | inl same ↦
          let is_b : d ≡ b = ground arith in
          let ofd : d.time_entry ≡ id = ap (λ x. x.time_entry) is_b ∙ e in
          let rd : d.break_end_at ≡ none = ap (λ x. x.break_end_at) is_b ∙ r in ground arith
      | inr other ↦
          any_where-later (is_open_break id) (k, d) t (any_where-lookup j b t (ground arith) e r)
    ]
