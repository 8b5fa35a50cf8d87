-- ===== src/Store/Pages/Walk.antt =====
-- The walk over the pages of `list_tasks` of apps/api/src/store.rs by their cursors.
use prosepect.Base.{
  ℕ, zero, suc, ◌≤◌, ◌<◌, ◌≡◌, ◌≢◌, refl, sym, ap, subst, ◌∙◌, inl, inr, Option, none, some, Bool,
  true, false, List, [], ◌∷◌, ◌++◌, ◌==◌, ltb, Bool-cases, retain, length, All, All-imp, All-retain,
  arith,
}
use prosepect.Base.Int.{ℤ, pos, negsuc}
use prosepect.Tasks.{Task, RecurringTaskState}
use prosepect.Store.{Db}
use prosepect.Store.Pages.{
  page_of, list_tasks, take, pop, last_id, is_before, tasks_listed, insert_by_id, sort_by_id,
  tasks_of_user, of_project, normalized_limit,
}

abbrev pub IsDescending : List Task → Type 0
IsDescending [] = Unit
IsDescending (t ∷ ts) = All (λ (u : Task). u.id < t.id) ts × IsDescending ts

-- A page that is not the last: its last task, and the rows after it.
record Cut (limit : ℕ) (ts : List Task) : Type 0 where
  before : List Task
  last : Task
  after : List Task
  whole : ts ≡ ((before ++ last ∷ []) ++ after)
  items : (page_of limit (take (suc limit) ts)).items ≡ (before ++ last ∷ [])
  cursor : (page_of limit (take (suc limit) ts)).next_cursor ≡ some last.id

-- A list that is cut after its first rows.
record Parts (n : ℕ) (ts : List Task) : Type 0 where
  first : List Task
  next : Task
  rest : List Task
  whole : ts ≡ (first ++ next ∷ rest)
  taken : take (suc n) ts ≡ (first ++ next ∷ [])
  size : length first ≡ n

parts : (n : ℕ) (ts : List Task) → n < length ts → Parts n ts
parts n [] long = absurd (ground (arith, long))
parts zero (t ∷ ts) long = record {
  first = [];
  next = t;
  rest = ts;
  whole = refl;
  taken = refl;
  size = refl;
}
parts (suc n) (t ∷ ts) long =
    let p = parts n ts (ground (arith, long)) in
    record {
      first = t ∷ p.first;
      next = p.next;
      rest = p.rest;
      whole = ap (λ l. t ∷ l) p.whole;
      taken = ap (λ l. t ∷ l) p.taken;
      size = ap suc p.size;
    }

pop-append : (ts : List Task) (t : Task) → pop (ts ++ t ∷ []) ≡ ts
pop-append [] t = refl
pop-append (u ∷ []) t = refl
pop-append (u ∷ v ∷ ts) t = ap (λ l. u ∷ l) (pop-append (v ∷ ts) t)

last_id-append : (ts : List Task) (t : Task) → last_id (ts ++ t ∷ []) ≡ some t.id
last_id-append [] t = refl
last_id-append (u ∷ []) t = refl
last_id-append (u ∷ v ∷ ts) t = last_id-append (v ∷ ts) t

length-append : (ts : List Task) (t : Task) → length (ts ++ t ∷ []) ≡ suc (length ts)
length-append [] t = refl
length-append (u ∷ ts) t = ap suc (length-append ts t)

ends :
    (ts : List Task)
    → 1 ≤ length ts
    → (before : List Task) × ((last : Task) × (ts ≡ (before ++ last ∷ [])))
ends [] long = absurd (ground (arith, long))
ends (t ∷ []) long = ([], (t, refl))
ends (t ∷ u ∷ us) long =
    let (before, (last, same)) = ends (u ∷ us) (ground arith) in
    (t ∷ before, (last, ap (λ l. t ∷ l) same))

page-Cut : (limit : ℕ) (ts : List Task) → 1 ≤ limit → limit < length ts → Cut limit ts
unfolding page_of
page-Cut limit ts some_rows long =
    let p = parts limit ts long in
    let (before, (last, same)) = ends p.first (ground (arith, p.size, some_rows)) in
    let full : ltb limit (length (take (suc limit) ts)) ≡ true =
      rw (p.taken, length-append p.first p.next) (ground (arith, p.size)) in
    let popped : pop (take (suc limit) ts) ≡ (before ++ last ∷ []) =
      ap pop p.taken ∙ (pop-append p.first p.next ∙ same) in
    record {
      before = before;
      last = last;
      after = p.next ∷ p.rest;
      whole = p.whole ∙ ap (λ l. l ++ p.next ∷ p.rest) same;
      items = rw (page_of, full) popped;
      cursor = rw (page_of, full) (ap last_id popped ∙ last_id-append before last);
    }

take-all : (n : ℕ) (ts : List Task) → length ts ≤ n → take (suc n) ts ≡ ts
take-all n [] short = refl
take-all zero (t ∷ ts) short = absurd (ground (arith, short))
take-all (suc n) (t ∷ ts) short = ap (λ l. t ∷ l) (take-all n ts (ground (arith, short)))

-- The last page.
page-last :
    (limit : ℕ) (ts : List Task)
    → length ts ≤ limit
    → page_of limit (take (suc limit) ts) ≡ record { items = ts; next_cursor = none }
unfolding page_of
page-last limit ts short =
    let few : ltb limit (length ts) ≡ false = ground (arith, short) in
    rw (take-all limit ts short, page_of, few) refl

all-rows : (ts : List Task) → retain (is_before none) ts ≡ ts
all-rows [] = refl
all-rows (t ∷ ts) = ap (λ l. t ∷ l) (all-rows ts)

all-before :
    (cursor : ℕ) (ts : List Task)
    → All (λ (u : Task). u.id < cursor) ts
    → retain (is_before (some cursor)) ts ≡ ts
all-before cursor [] h = refl
all-before cursor (t ∷ ts) h =
    let small : ltb t.id cursor ≡ true = ground (arith, h.0) in
    rw (small, all-before cursor ts h.1) refl

All-middle :
    (P : Task → Type 0) (xs : List Task) (t : Task) (ys : List Task) → All P (xs ++ t ∷ ys) → P t
All-middle P [] t ys h = h.0
All-middle P (x ∷ xs) t ys h = All-middle P xs t ys h.1

-- The rows after a task of a list that descends.
after-cursor :
    (before after : List Task) (t : Task)
    → IsDescending (before ++ t ∷ after)
    → retain (is_before (some t.id)) (before ++ t ∷ after) ≡ after
after-cursor [] after t h =
    let own : ltb t.id t.id ≡ false = ground arith in rw own (all-before t.id after h.0)
after-cursor (u ∷ before) after t h =
    let larger = All-middle (λ v. v.id < u.id) before t after h.0 in
    let own : ltb u.id t.id ≡ false = ground (arith, larger) in
    rw own (after-cursor before after t h.1)

-- No two rows have one identifier: the primary key.
abbrev pub IsKeyed : List RecurringTaskState → Type 0
IsKeyed [] = Unit
IsKeyed (t ∷ ts) = All (λ (u : RecurringTaskState). u.task.id ≢ t.task.id) ts × IsKeyed ts

abbrev IsDistinct : List Task → Type 0
IsDistinct [] = Unit
IsDistinct (t ∷ ts) = All (λ (u : Task). u.id ≢ t.id) ts × IsDistinct ts

user-All :
    (user : ℕ) (P : Task → Type 0) (ts : List RecurringTaskState)
    → All (λ (u : RecurringTaskState). P u.task) ts
    → All P (tasks_of_user user ts)
user-All user P [] h = tt
user-All user P (t ∷ ts) h = elim (Bool-cases (t.user_id == user)) [
  | inl own ↦ rw own (h.0, user-All user P ts h.1)
  | inr other ↦ rw other (user-All user P ts h.1)
]

user-IsDistinct :
    (user : ℕ) (ts : List RecurringTaskState) → IsKeyed ts → IsDistinct (tasks_of_user user ts)
user-IsDistinct user [] h = tt
user-IsDistinct user (t ∷ ts) h = elim (Bool-cases (t.user_id == user)) [
  | inl own ↦ rw own (user-All user (λ u. u.id ≢ t.task.id) ts h.0, user-IsDistinct user ts h.1)
  | inr other ↦ rw other (user-IsDistinct user ts h.1)
]

retain-IsDistinct : (p : Task → Bool) (ts : List Task) → IsDistinct ts → IsDistinct (retain p ts)
retain-IsDistinct p [] h = tt
retain-IsDistinct p (t ∷ ts) h = elim (Bool-cases (p t)) [
  | inl hit ↦ rw hit (All-retain (λ u. u.id ≢ t.id) p ts h.0, retain-IsDistinct p ts h.1)
  | inr miss ↦ rw miss (retain-IsDistinct p ts h.1)
]

insert-All :
    (P : Task → Type 0) (t : Task) (ts : List Task) → P t → All P ts → All P (insert_by_id t ts)
insert-All P t [] own h = (own, tt)
insert-All P t (u ∷ us) own h = elim (Bool-cases (ltb u.id t.id)) [
  | inl smaller ↦ rw smaller (own, h)
  | inr larger ↦ rw larger (h.0, insert-All P t us own h.1)
]

sort-All : (P : Task → Type 0) (ts : List Task) → All P ts → All P (sort_by_id ts)
sort-All P [] h = tt
sort-All P (t ∷ ts) h = insert-All P t (sort_by_id ts) h.0 (sort-All P ts h.1)

insert-IsDescending :
    (t : Task) (ts : List Task)
    → All (λ (u : Task). u.id ≢ t.id) ts
    → IsDescending ts
    → IsDescending (insert_by_id t ts)
insert-IsDescending t [] other h = (tt, tt)
insert-IsDescending t (u ∷ us) other h = elim (Bool-cases (ltb u.id t.id)) [
  | inl smaller ↦
      let below : u.id < t.id = ground (arith, smaller) in
      rw smaller ((below, All-imp _ _ us (λ v small. ground (arith, small, below)) h.0), h)
  | inr larger ↦
      let above : t.id < u.id = ground (arith, larger, other.0) in
      rw larger (insert-All (λ v. v.id < u.id) t us above h.0, insert-IsDescending t us other.1 h.1)
]

sort-IsDescending : (ts : List Task) → IsDistinct ts → IsDescending (sort_by_id ts)
sort-IsDescending [] h = tt
sort-IsDescending (t ∷ ts) h =
    insert-IsDescending t (sort_by_id ts) (sort-All (λ u. u.id ≢ t.id) ts h.0)
      (sort-IsDescending ts h.1)

append_assoc : (xs ys zs : List Task) → ((xs ++ ys) ++ zs) ≡ (xs ++ (ys ++ zs))
append_assoc [] ys zs = refl
append_assoc (x ∷ xs) ys zs = ap (λ l. x ∷ l) (append_assoc xs ys zs)

append_nil : (xs : List Task) → (xs ++ []) ≡ xs
append_nil [] = refl
append_nil (x ∷ xs) = ap (λ l. x ∷ l) (append_nil xs)

length-after :
    (before after : List Task) (t : Task) → length after < length ((before ++ t ∷ []) ++ after)
length-after [] after t = ground arith
length-after (b ∷ before) after t = let more = length-after before after t in ground (arith, more)

module _ (user : ℕ) (project : Option ℕ) (limit : ℕ) (db : Db) where
  -- What a client reads that asks for the page after each cursor, at most as often as the fuel says.
  abbrev pub walk : ℕ → Option ℕ → List Task
  walk zero cursor = []
  walk (suc fuel) cursor =
      (list_tasks user project cursor limit db).items
      ++ (elim (list_tasks user project cursor limit db).next_cursor [
        | none ↦ []
        | some next ↦ walk fuel (some next)
      ])

  walk-rest :
      (fuel : ℕ) (cursor : Option ℕ) (before rows : List Task)
      → 1 ≤ limit
      → IsDescending (tasks_listed user project db)
      → tasks_listed user project db ≡ (before ++ rows)
      → retain (is_before cursor) (tasks_listed user project db) ≡ rows
      → length rows ≤ fuel
      → walk fuel cursor ≡ rows
  unfolding list_tasks
  walk-rest zero cursor before [] some_rows sorted whole query enough = refl
  walk-rest zero cursor before (t ∷ ts) some_rows sorted whole query enough =
      absurd (ground (arith, enough))
  walk-rest (suc fuel) cursor before rows some_rows sorted whole query enough =
      elim (Bool-cases (ltb limit (length rows))) [
        | inr short ↦ rw (query, page-last limit rows (ground (arith, short))) (append_nil rows)
        | inl long ↦
            let c = page-Cut limit rows some_rows (ground (arith, long)) in
            let head = before ++ c.before in
            let split : tasks_listed user project db ≡ (head ++ c.last ∷ c.after) =
              whole
              ∙ (ap (λ l. before ++ l) (c.whole ∙ append_assoc c.before (c.last ∷ []) c.after)
                  ∙ sym (append_assoc before c.before (c.last ∷ c.after))) in
            let next : retain (is_before (some c.last.id)) (tasks_listed user project db)
                ≡ c.after =
              ap (retain (is_before (some c.last.id))) split
              ∙ after-cursor head c.after c.last (subst IsDescending split sorted) in
            let fewer : length c.after ≤ fuel =
              ground (arith, enough, length-after c.before c.after c.last, ap length c.whole) in
            let rest =
              walk-rest fuel (some c.last.id) (head ++ c.last ∷ []) c.after some_rows sorted
                (split ∙ sym (append_assoc head (c.last ∷ []) c.after)) next fewer in
            rw (query, c.items, c.cursor, rest) (sym c.whole)
      ]

  walk-all :
      1 ≤ limit
      → IsKeyed db.tasks
      → walk (length (tasks_listed user project db)) none ≡ tasks_listed user project db
        × IsDescending (tasks_listed user project db)
  unfolding tasks_listed
  walk-all some_rows keyed =
      let sorted : IsDescending (tasks_listed user project db) =
        sort-IsDescending (retain (of_project project) (tasks_of_user user db.tasks)) (
          retain-IsDistinct (of_project project) (tasks_of_user user db.tasks)
            (user-IsDistinct user db.tasks keyed)) in
      (
        walk-rest (length (tasks_listed user project db)) none [] (tasks_listed user project db)
            some_rows sorted refl (all-rows (tasks_listed user project db)) (ground arith),
        sorted,
      )

normalized_limit-positive : (requested : Option ℤ) → 1 ≤ normalized_limit requested
unfolding normalized_limit
normalized_limit-positive none = ground arith
normalized_limit-positive (some (pos n)) = ground arith
normalized_limit-positive (some (negsuc n)) = ground arith

-- Whatever limit a request asks for, a walk over the pages of a user's tasks, or of those in a
-- project, from the first page on, with a page for each task at most, gives each of them once, in
-- descending order of their identifiers, where no two tasks have one identifier.
pub walk-tasks_listed :
    (user : ℕ) (project : Option ℕ) (requested : Option ℤ) (db : Db)
    → IsKeyed db.tasks
    → walk user project (normalized_limit requested) db (length (tasks_listed user project db)) none
        ≡ tasks_listed user project db
      × IsDescending (tasks_listed user project db)
walk-tasks_listed user project requested db keyed =
    walk-all user project (normalized_limit requested) db (normalized_limit-positive requested)
      keyed
