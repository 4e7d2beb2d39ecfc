-- ===== src/Sync/Drain.antt =====
-- The loop over pages of `drainCourses` and `drainStudents` in apps/api/src/sync/sync.service.ts, up
-- to the test of the terminal watermark. `feed` is the client's answer to a cursor, or without one to
-- the snapshot or watermark of the run; the heartbeats of the lease are left out. A turn of the loop
-- costs one unit of fuel.
use edupay_academico.Prelude.{
  ℕ, zero, suc, ◌+◌, ◌≤◌, ◌≡◌, refl, sym, ◌∙◌, Bool, true, Option, none, some, List, [], ◌∷◌, ◌++◌,
  Text, text_eq, text_eq_refl, is_empty, ◌||◌, length, Result, ok, err, ◌>>=◌, ◌>>◌, require,
  require_some, arith, ◌&&◌,
}
use edupay_academico.Access.{truthy}
use mathlib.Core.List.{append_assoc, append-nil}
use mathlib.Core.Option.{some-injective}

pub data DrainError : Type 0 where
  feed_failed source_tenant_mismatch source_run_mismatch : DrainError
  source_terminal_watermark_missing out_of_fuel : DrainError

pub record Page (I K : Type 0) : Type 0 where
  pub source_tenant_id : Text
  pub run_id : Text
  pub items : List I
  pub conflicts : List K
  pub next_cursor : Option Text
  pub next_watermark : Option Text

-- What the loop has gathered.
pub record Drained (I K : Type 0) : Type 0 where
  pub items : List I
  pub conflicts : List K
  pub page_count : ℕ
  pub terminal_watermark : Option Text

-- `sourceRunId ??= descriptorRunId`
abbrev pub source_run : Option Text → Text → Text
source_run none run_id = run_id
source_run (some run) run_id = run

-- `snapshotRunId && descriptorRunId !== snapshotRunId` does not hold.
abbrev pub fits_snapshot : Option Text → Text → Bool
fits_snapshot none run_id = true
fits_snapshot (some run) run_id = is_empty run || text_eq run_id run

module _ {I K : Type 0} where
  abbrev pub add_page : Page I K → Drained I K → Drained I K
  add_page page d = record {
    items = d.items ++ page.items;
    conflicts = d.conflicts ++ page.conflicts;
    page_count = d.page_count + 1;
    terminal_watermark = page.next_watermark;
  }

  abbrev pub nothing_drained : Drained I K
  nothing_drained = record { items = []; conflicts = []; page_count = 0; terminal_watermark = none }

module _ {I K : Type 0} (feed : Option Text → Result DrainError (Page I K)) (tenant_id : Text)
    (snapshot_run_id : Option Text) where
  unfoldable pub drain_pages :
      (fuel : ℕ)
      → (cursor source_run_id : Option Text) → Drained I K
      → Result DrainError (Drained I K)
  drain_pages zero cursor run d = err out_of_fuel
  drain_pages (suc fuel) cursor run d = do
    page ← feed cursor
    require source_tenant_mismatch (text_eq page.source_tenant_id tenant_id)
    require source_run_mismatch (
        text_eq page.run_id (source_run run page.run_id)
        && fits_snapshot snapshot_run_id page.run_id)
    elim (truthy page.next_cursor) [
      | none ↦ ok (add_page page d)
      | some next ↦
          drain_pages fuel (some next) (some (source_run run page.run_id)) (add_page page d)
    ]

  unfoldable pub drain : (fuel : ℕ) → Result DrainError (Drained I K)
  unfolding drain_pages
  drain fuel = do
    d ← drain_pages fuel none none nothing_drained
    watermark ← require_some source_terminal_watermark_missing (truthy d.terminal_watermark)
    ok d

  -- The feed serves these pages from a cursor on, each of the tenant and of the run.
  pub data Serves (run_id : Text) : Option Text → List (Page I K) → Type 0 where
    last :
        {cursor : Option Text} {page : Page I K}
        → feed cursor ≡ ok page
        → page.source_tenant_id ≡ tenant_id
        → page.run_id ≡ run_id
        → truthy page.next_cursor ≡ none
        → Serves run_id cursor (page ∷ [])
    more :
        {cursor : Option Text} {page : Page I K} {pages : List (Page I K)} (next : Text)
        → feed cursor ≡ ok page
        → page.source_tenant_id ≡ tenant_id
        → page.run_id ≡ run_id
        → truthy page.next_cursor ≡ some next
        → Serves run_id (some next) pages
        → Serves run_id cursor (page ∷ pages)

  abbrev pub items_of : List (Page I K) → List I
  items_of [] = []
  items_of (page ∷ pages) = page.items ++ items_of pages

  abbrev pub last_watermark : Option Text → List (Page I K) → Option Text
  last_watermark w [] = w
  last_watermark w (page ∷ pages) = last_watermark page.next_watermark pages

  -- What the pages add to what was gathered.
  pub record Gathers (pages : List (Page I K)) (before after : Drained I K) : Type 0 where
    pub items : after.items ≡ before.items ++ items_of pages
    pub page_count : after.page_count ≡ before.page_count + length pages
    pub terminal_watermark :
        after.terminal_watermark ≡ last_watermark before.terminal_watermark pages

  source_run_fits :
      (run : Option Text) (run_id : Text)
      → ((r : Text) → run ≡ some r → r ≡ run_id)
      → source_run run run_id ≡ run_id
  source_run_fits none run_id h = refl
  source_run_fits (some r) run_id h = h r refl

  drain_pages-Gathers :
      (run_id : Text)
      → fits_snapshot snapshot_run_id run_id ≡ true
      → (fuel : ℕ) (run : Option Text) (before : Drained I K) {cursor : Option Text}
        {pages : List (Page I K)}
      → ((r : Text) → run ≡ some r → r ≡ run_id)
      → length pages ≤ fuel
      → Serves run_id cursor pages
      → (after : Drained I K) × (drain_pages fuel cursor run before ≡ ok after)
        × Gathers pages before after
  unfolding drain_pages
  drain_pages-Gathers run_id fits zero run before same enough (last e t r n) = absurd (omega arith)
  drain_pages-Gathers run_id fits zero run before same enough (more next e t r n rest) =
      absurd (omega arith)
  drain_pages-Gathers run_id fits (suc fuel) run before same enough (last {page = page} e t r n) =
      let at_run = source_run_fits run run_id same in
      (
        add_page page before,
        rw (e, t, r, at_run, text_eq_refl tenant_id, text_eq_refl run_id, fits, n) refl,
        record {
          items = rw (append-nil page.items) refl;
          page_count = omega arith;
          terminal_watermark = refl;
        },
      )
  drain_pages-Gathers run_id fits (suc fuel) run before same enough
        (more {page = page} {pages = pages} next e t r n rest) =
      let at_run : source_run run page.run_id ≡ run_id = rw r (source_run_fits run run_id same) in
      let test : (text_eq page.run_id (source_run run page.run_id)
            && fits_snapshot snapshot_run_id page.run_id)
          ≡ true =
        rw (at_run, r, text_eq_refl run_id) fits in
      let (after, result, gathers) =
        drain_pages-Gathers run_id fits fuel (some (source_run run page.run_id))
          (add_page page before)
          (λ x h. sym (some-injective (source_run run page.run_id) x h) ∙ at_run) (omega arith)
          rest in
      (
        after,
        rw (e, t, text_eq_refl tenant_id, test, n) result,
        record {
          items = gathers.items ∙ append_assoc before.items page.items (items_of pages);
          page_count = omega (arith, gathers.page_count);
          terminal_watermark = gathers.terminal_watermark;
        },
      )

  -- Where the feed serves pages of the tenant and of one run, which the snapshot allows, up to a page
  -- without a cursor and with a watermark, and the fuel is at least their number, the loop ends, and
  -- with all their items in order, their number and the last watermark.
  pub drain-Gathers :
      (run_id watermark : Text) (fuel : ℕ) (pages : List (Page I K))
      → fits_snapshot snapshot_run_id run_id ≡ true
      → Serves run_id none pages
      → length pages ≤ fuel
      → truthy (last_watermark none pages) ≡ some watermark
      → (d : Drained I K) × (drain fuel ≡ ok d) × Gathers pages nothing_drained d
  unfolding drain
  drain-Gathers run_id watermark fuel pages fits serves enough ends =
      let (d, result, gathers) =
        drain_pages-Gathers run_id fits fuel none nothing_drained (λ x h. cc) enough serves in
      (d, rw (result, gathers.terminal_watermark, ends) refl, gathers)
