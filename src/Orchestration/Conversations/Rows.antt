-- ===== src/Orchestration/Conversations/Rows.antt =====
-- The queries and updates of the tables that apps/api/src/orchestration/conversation-manager.ts makes:
-- the order of a table by time, an update of one row, and the spread of two objects.
use mathlib.Core.Option
use psychic_octo_invention.Prelude.{
  ℕ, ◌≤◌, String, ◌≡◌, refl, sym, ap, ◌∙◌, subst, inl, inr, Bool, true, false, Option, none, some,
  List, [], ◌∷◌, map, filter, find, All, ltb, eqb, arith, Bool-cases, Option-cases, ◌==◌, eq_iff,
  if◌then◌else◌, some_inj, eqb→eq,
}
use psychic_octo_invention.Json.{Json, Fields, end, field, get_field}
use psychic_octo_invention.Orchestration.Conversations.{
  StoredMessage, has_message_id, update_message, set_field, spread, insert_newest, newest_first,
  metadata_of,
}
use psychic_octo_invention.Orchestration.Conversations.Mailbox.{first_of, to_entry, is_in, read}

-- A query for one row reads the new row first.
pub map-if :
    {A B : Type 0} (f : A → B) (b : Bool) (x : A) (o : Option A)
    → Option.map f (if b then some x else o) ≡ (if b then some (f x) else Option.map f o)
map-if f true x o = refl
map-if f false x o = refl

abbrev pub IsBefore : ℕ → StoredMessage → Type 0
IsBefore time m = m.created_at ≤ time

-- No message is older than one that stands after it.
abbrev pub IsDescending : List StoredMessage → Type 0
IsDescending [] = Unit
IsDescending (m ∷ ms) = All (IsBefore m.created_at) ms × IsDescending ms

insert_newest-first :
    (m : StoredMessage) (ms : List StoredMessage)
    → All (IsBefore m.created_at) ms
    → insert_newest m ms ≡ m ∷ ms
insert_newest-first m [] h = refl
insert_newest-first m (x ∷ xs) h =
    let older : ltb m.created_at x.created_at ≡ false = (let le = h.0 in ground arith) in
    rw older refl

pub newest_first-IsDescending : (ms : List StoredMessage) → IsDescending ms → newest_first ms ≡ ms
newest_first-IsDescending [] h = refl
newest_first-IsDescending (m ∷ ms) h =
    ap (insert_newest m) (newest_first-IsDescending ms h.1) ∙ insert_newest-first m ms h.0

filter-All :
    (P : StoredMessage → Type 0) (p : StoredMessage → Bool) (ms : List StoredMessage)
    → All P ms
    → All P (filter p ms)
filter-All P p [] h = tt
filter-All P p (m ∷ ms) h = elim (Bool-cases (p m)) [
  | inl e ↦ rw e (h.0, filter-All P p ms h.1)
  | inr e ↦ rw e (filter-All P p ms h.1)
]

pub filter-IsDescending :
    (p : StoredMessage → Bool) (ms : List StoredMessage)
    → IsDescending ms
    → IsDescending (filter p ms)
filter-IsDescending p [] h = tt
filter-IsDescending p (m ∷ ms) h = elim (Bool-cases (p m)) [
  | inl e ↦ rw e (filter-All (IsBefore m.created_at) p ms h.0, filter-IsDescending p ms h.1)
  | inr e ↦ rw e (filter-IsDescending p ms h.1)
]

pub All-IsBefore_later :
    (s t : ℕ) (ms : List StoredMessage) → s ≤ t → All (IsBefore s) ms → All (IsBefore t) ms
All-IsBefore_later s t [] le h = tt
All-IsBefore_later s t (m ∷ ms) le h =
    ((let before = h.0 in omega arith), All-IsBefore_later s t ms le h.1)

get_field-set_field :
    (key k : String) (v : Json) (fs : Fields)
    → get_field key (set_field k v fs) ≡ (if k == key then some v else get_field key fs)
get_field-set_field key k v end = refl
get_field-set_field key k v (field j w fs) = elim (Bool-cases (j == k)) [
  | inl e ↦
      let q : j ≡ k = (eq_iff j k).0 e in
      rw e (elim (Bool-cases (k == key)) [
        | inl f ↦ (let g : (j == key) ≡ true = rw q f in rw (f, g) refl)
        | inr f ↦ (let g : (j == key) ≡ false = rw q f in rw (f, g) refl)
      ])
  | inr e ↦ rw e (elim (Bool-cases (j == key)) [
    | inl f ↦
        let q : j ≡ key = (eq_iff j key).0 f in
        rw f (elim (Bool-cases (k == key)) [
          | inl g ↦
              absurd (let r : (j == k) ≡ true = (eq_iff j k).1 (q ∙ sym ((eq_iff k key).0 g)) in cc)
          | inr g ↦ rw g refl
        ])
    | inr f ↦ rw f (get_field-set_field key k v fs)
  ])
]

-- A key of the patch hides the same key of the object.
pub get_field-spread :
    (key : String) (fs patch : Fields)
    → get_field key (spread fs patch) ≡ first_of (get_field key patch) (get_field key fs)
get_field-spread key fs end = refl
get_field-spread key fs (field k v patch) =
    get_field-set_field key k v (spread fs patch) ∙ elim (Bool-cases (k == key)) [
      | inl e ↦ rw e refl
      | inr e ↦ rw e (get_field-spread key fs patch)
    ]

pub read-metadata_of :
    (m : StoredMessage) (key : String) → get_field key (metadata_of (some m)) ≡ read m.metadata key
read-metadata_of m key = elim (Option-cases m.metadata) [
  | inl e ↦ rw e refl
  | inr (fs, e) ↦ rw e refl
]

module _ (id : ℕ) (f : StoredMessage → StoredMessage) where
  -- An update without a row of the id throws.
  pub update_message-none :
      (ms : List StoredMessage) → find (has_message_id id) ms ≡ none → update_message id f ms ≡ none
  update_message-none [] h = refl
  update_message-none (m ∷ ms) h = elim (Bool-cases (eqb m.id id)) [
    | inl e ↦ absurd (let g : find (has_message_id id) (m ∷ ms) ≡ some m = rw e refl in cc)
    | inr e ↦
        let g : find (has_message_id id) ms ≡ none = rw e at h in
        rw (e, update_message-none ms g) refl
  ]

  -- What an update of a row keeps, and what it changes.
  pub record IsUpdate (m : StoredMessage) (ms ns : List StoredMessage) : Type 0 where
    pub entries : (v : ℕ) → map to_entry (filter (is_in v) ns) ≡ map to_entry (filter (is_in v) ms)
    pub found :
        (j : ℕ)
        → find (has_message_id j) ns ≡ (if eqb id j then some (f m) else find (has_message_id j) ms)
    pub before : (t : ℕ) → All (IsBefore t) ms → All (IsBefore t) ns
    pub descending : IsDescending ms → IsDescending ns

  after-IsUpdate :
      (m x : StoredMessage) (ms ns : List StoredMessage)
      → eqb x.id id ≡ false
      → IsUpdate m ms ns
      → IsUpdate m (x ∷ ms) (x ∷ ns)
  after-IsUpdate m x ms ns other u = record {
    entries = λ v. elim (Bool-cases (is_in v x)) [
      | inl e ↦ rw e (ap (λ es. to_entry x ∷ es) (u.entries v))
      | inr e ↦ rw e (u.entries v)
    ];
    found = λ j. elim (Bool-cases (eqb x.id j)) [
      | inl e ↦ (let ne : eqb id j ≡ false = ground arith in rw (e, ne) refl)
      | inr e ↦ rw e (u.found j)
    ];
    before = λ t h. (h.0, u.before t h.1);
    descending = λ h. (u.before x.created_at h.0, u.descending h.1);
  }

  module _ (same_entry : (m : StoredMessage) → to_entry (f m) ≡ to_entry m)
      (same_place : (m : StoredMessage) → (f m).conversation_id ≡ m.conversation_id)
      (same_time : (m : StoredMessage) → (f m).created_at ≡ m.created_at) where
    first-IsUpdate :
        (m : StoredMessage) (ms : List StoredMessage)
        → eqb m.id id ≡ true
        → IsUpdate m (m ∷ ms) (f m ∷ ms)
    first-IsUpdate m ms this = record {
      entries = λ v. elim (Bool-cases (is_in v m)) [
        | inl e ↦
            rw (same_place m, e) (ap (λ x. x ∷ map to_entry (filter (is_in v) ms)) (same_entry m))
        | inr e ↦ rw (same_place m, e) refl
      ];
      found = λ j.
          let same : (f m).id ≡ id = ap (λ e. e.id) (same_entry m) ∙ eqb→eq m.id id this in
          let old : m.id ≡ id = eqb→eq m.id id this in
          elim (Bool-cases (eqb id j)) [
            | inl e ↦ rw (same, e) refl
            | inr e ↦ rw (same, old, e) refl
          ];
      before = λ t h. (rw (same_time m) h.0, h.1);
      descending = λ h. (rw (same_time m) h.0, h.1);
    }

    -- An update of a row that is there succeeds.
    pub update_message-IsUpdate :
        (ms : List StoredMessage) (m : StoredMessage)
        → find (has_message_id id) ms ≡ some m
        → (ns : List StoredMessage) × (update_message id f ms ≡ some ns) × IsUpdate m ms ns
    update_message-IsUpdate [] m h = absurd (let e = h in cc)
    update_message-IsUpdate (x ∷ xs) m h = elim (Bool-cases (eqb x.id id)) [
      | inl e ↦
          let q : some x ≡ some m = rw e at h in
          (
            f x ∷ xs,
            rw e refl,
            subst (λ y. IsUpdate y (x ∷ xs) (f x ∷ xs)) (some_inj x m q) (first-IsUpdate x xs e),
          )
      | inr e ↦
          let g : find (has_message_id id) xs ≡ some m = rw e at h in
          let (ns, eq, u) = update_message-IsUpdate xs m g in
          (x ∷ ns, rw (e, eq) refl, after-IsUpdate m x xs ns e u)
    ]
