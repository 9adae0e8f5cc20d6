-- ===== src/Hub/Sessions/Titles.antt =====
-- Which titles the hub keeps: `apply_title_update` over a sequence of updates, of this terminal and of
-- others. A program names its terminal by an escape sequence (`osc`); the machine also reports the
-- process that runs in it (`process`).
use webmux.Base.{
  ◌⊎◌, inl, inr, String, ◌≡◌, refl, Bool, true, false, not, ◌&&◌, ◌||◌, some, List, [], ◌∷◌, All,
  if◌then◌else◌, arith, string_key, is_text,
}
use webmux.Base.Map.{get, get-modify, mapped}
use webmux.Hub.Sessions.{
  TerminalTitleSource, osc, process, none_source, title_source_name, SessionRow, Table,
  TitleUpdateOutcome, updated, unchanged, rejected, is_active, judged, retitled, apply_title_update,
}

-- An update of a terminal's title.
pub record Update : Type 0 where
  pub terminal_id : String
  pub title : String
  pub source : TerminalTitleSource

unfoldable pub update_all : Table → List Update → Table
update_all table [] = table
update_all table (u ∷ us) =
    update_all (apply_title_update table u.terminal_id u.title u.source).0 us

abbrev pub retitle : String → TerminalTitleSource → SessionRow → SessionRow
retitle title source row = record row { title = title; title_source = title_source_name source }

abbrev pub is_updated : TitleUpdateOutcome → Bool
is_updated updated = true
is_updated unchanged = false
is_updated rejected = false

get-retitled :
    (table : Table) (id other title : String) (source : TerminalTitleSource)
    (o : TitleUpdateOutcome)
    → get other (retitled table id title source o) ≡ (
        if is_updated o && string_key.eq id other
        then mapped (retitle title source) (get other table)
        else get other table)
unfolding retitled title_source_name
get-retitled table id other title source updated = get-modify id other (retitle title source) table
get-retitled table id other title source unchanged = refl
get-retitled table id other title source rejected = refl

-- An update that succeeds reaches the row of its terminal and no other; one that does not, none.
pub get-apply_title_update :
    (table : Table) (id other title : String) (source : TerminalTitleSource)
    → get other (apply_title_update table id title source).0 ≡ (
        if is_updated (apply_title_update table id title source).1 && string_key.eq id other
        then mapped (retitle title source) (get other table)
        else get other table)
unfolding apply_title_update
get-apply_title_update table id other title source =
    get-retitled table id other title source (judged title source (get id table))

-- An update of another terminal, or from the process that runs in this one.
abbrev pub is_process : TerminalTitleSource → Bool
is_process osc = false
is_process process = true
is_process none_source = false

abbrev pub is_weak : String → Update → Bool
is_weak id u = not (string_key.eq u.terminal_id id) || is_process u.source

judged-process :
    (title : String) (source : TerminalTitleSource) (row : SessionRow)
    → is_active row ≡ true
    → is_text row.title_source "osc" ≡ true
    → is_process source ≡ true
    → is_updated (judged title source (some row)) ≡ false
unfolding judged title_source_name
judged-process title osc row a o p = absurd (ground arith)
judged-process title process row a o p = ground arith
judged-process title none_source row a o p = absurd (ground arith)

apply-weak :
    (table : Table) (id : String) (u : Update) (row : SessionRow)
    → get id table ≡ some row
    → is_active row ≡ true
    → is_text row.title_source "osc" ≡ true
    → is_weak id u ≡ true
    → get id (apply_title_update table u.terminal_id u.title u.source).0 ≡ some row
unfolding apply_title_update
apply-weak table id u row g a o w = ground (
  arith,
  get-apply_title_update table u.terminal_id id u.title u.source,
  string_key.eq_iff u.terminal_id id,
  judged-process u.title u.source row,
)

-- A terminal that a program has named keeps its whole row under the process's titles and under what is
-- said of other terminals.
pub update_all-osc :
    (table : Table) (id : String) (us : List Update) (row : SessionRow)
    → get id table ≡ some row
    → is_active row ≡ true
    → is_text row.title_source "osc" ≡ true
    → All (λ u. is_weak id u ≡ true) us
    → get id (update_all table us) ≡ some row
unfolding update_all
update_all-osc table id [] row g a o w = g
update_all-osc table id (u ∷ us) row g a o w =
    update_all-osc (apply_title_update table u.terminal_id u.title u.source).0 id us row
      (apply-weak table id u row g a o w.0) a o w.1

judged-osc :
    (title : String) (row : SessionRow)
    → is_active row ≡ true
    → is_text title "" ≡ false
    → (is_updated (judged title osc (some row)) ≡ true)
      ⊎ ((is_updated (judged title osc (some row)) ≡ false)
          × (is_text row.title title ≡ true)
          × (is_text row.title_source "osc" ≡ true))
unfolding judged title_source_name
judged-osc title row a n = ground arith

-- The title that a program gives, unless it is empty, is the title of an active terminal from then on,
-- until the program gives another.
pub update_all-last_osc :
    (table : Table) (id title : String) (us : List Update) (row : SessionRow)
    → get id table ≡ some row
    → is_active row ≡ true
    → is_text title "" ≡ false
    → All (λ u. is_weak id u ≡ true) us
    → (row' : SessionRow) × (get id
          (update_all table (record { terminal_id = id; title = title; source = osc } ∷ us))
        ≡ some row')
      × (row'.title ≡ title)
unfolding update_all apply_title_update title_source_name
update_all-last_osc table id title us row g a n w = elim (judged-osc title row a n) [
  | inl j ↦ (
    retitle title osc row,
    update_all-osc (apply_title_update table id title osc).0 id us (retitle title osc row) (won j) a
        refl w,
    refl,
  )
  | inr (u, t, o) ↦ (
    row,
    update_all-osc (apply_title_update table id title osc).0 id us row (kept u) a o w,
    (string_key.eq_iff row.title title).0 t,
  )
]
  where
    won :
        is_updated (judged title osc (some row)) ≡ true
        → get id (apply_title_update table id title osc).0 ≡ some (retitle title osc row)
    won j = ground (arith, get-apply_title_update table id id title osc, string_key.eq_iff id id, j)

    kept :
        is_updated (judged title osc (some row)) ≡ false
        → get id (apply_title_update table id title osc).0 ≡ some row
    kept u =
        ground (arith, get-apply_title_update table id id title osc, string_key.eq_iff id id, u)
