-- ===== src/Runtime/Suggestions.antt =====
-- Who gets choices, and how many entries the cache of choices has (src/runtime.rs).
use raydio.Prelude.{
  ℕ, ◌+◌, ◌≤◌, ◌≡◌, ◌⊎◌, refl, ap, ◌∙◌, Bool, true, false, not, Option, none, some, List, [], ◌∷◌,
  Text, codes, arith, text_eq_refl, leb, if◌then◌else◌, length, length-keep, keep, trim,
  Option-cases, Bool-cases, inl, inr,
}
use raydio.Prelude.Results.{Result, ok, err}
use raydio.Discord.{Request, user, option}
use raydio.Views.Choices.{Choice}
use raydio.Runtime.Choices.{
  Entry, delete_entry, set_entry, oldest, evict, remember, is_recent, Search, Shared, keep_choices,
  admitted, cache_key, find_entry, search_now, look_up, choices_for, autocomplete_choices,
  is_searchable, needs_membership, ensure_bot_membership,
}
use raydio.Resolver.{Resolution, Failure}
use raydio.Runtime.Resolve.{resolve}

length-delete_entry : (key : Text) (es : List Entry) → length (delete_entry key es) ≤ length es
unfolding delete_entry
length-delete_entry key [] = omega arith
length-delete_entry key (e ∷ es) = ground (arith, length-delete_entry key es)

length-set_entry : (f : Entry) (es : List Entry) → length (set_entry f es) ≤ length es + 1
unfolding set_entry
length-set_entry f [] = omega arith
length-set_entry f (e ∷ es) = ground (arith, length-set_entry f es)

deletes_head :
    (e f : Entry) (es : List Entry)
    → e ≡ f
    → length (delete_entry f.key (e ∷ es)) + 1 ≤ length (e ∷ es)
unfolding delete_entry
deletes_head e f es h = ground (arith, text_eq_refl f.key, length-delete_entry f.key es, h)

-- The oldest entry is one of the list, so its deletion makes room.
length-oldest :
    (es : List Entry) (f : Entry)
    → oldest es ≡ some f
    → length (delete_entry f.key es) + 1 ≤ length es
unfolding oldest delete_entry
length-oldest [] f h = cc
length-oldest (e ∷ es) f h = elim (Option-cases (oldest es)) [
  | inl n ↦ deletes_head e f es (ground (arith, n, h))
  | inr (g, n) ↦ elim (Bool-cases (leb e.at g.at)) [
    | inl l ↦ deletes_head e f es (ground (arith, n, l, h))
    | inr l ↦ ground (arith, length-oldest es f (n ∙ ground (arith, n, l, h)))
  ]
]

oldest-none : (es : List Entry) → oldest es ≡ none → es ≡ []
unfolding oldest
oldest-none [] h = refl
oldest-none (e ∷ es) h = ground (arith, h)

length-evict : (es : List Entry) → length es ≤ 500 → length (evict es) ≤ 499
unfolding evict
length-evict es h = elim (Option-cases (oldest es)) [
  | inl e ↦ ground (arith, e, oldest-none es e)
  | inr (f, e) ↦ ground (arith, e, length-oldest es f e)
]

length-remember :
    (now : ℕ) (f : Entry) (es : List Entry) → length es ≤ 500 → length (remember now f es) ≤ 500
unfolding remember
length-remember now f es h = omega (
  arith,
  length-set_entry f (evict (keep (is_recent now) es)),
  length-evict (keep (is_recent now) es) (omega (arith, length-keep (is_recent now) es, h)),
)

module _ {P : Type 0} where
  -- The cache of choices is within its bound, and there are no choices or the caller has access in
  -- some channel of the guild.
  pub record Answered (s : Search P) (id caller : ℕ) (o : Shared P × List Choice) : Type 0 where
    pub bounded : length o.0.autocomplete ≤ 500
    pub allowed : (o.1 ≡ []) ⊎ ((channel : ℕ) × (admitted s id caller o.0.cache ≡ some channel))

  keep_choices-bounded :
      (now : ℕ) (key : Text) (r : Result Resolution Failure) (sh : Shared P)
      → length sh.autocomplete ≤ 500
      → length (keep_choices now key r sh).0.autocomplete ≤ 500
  unfolding keep_choices
  keep_choices-bounded now key (err e) sh h = h
  keep_choices-bounded now key (ok r) sh h = length-remember now _ sh.autocomplete h

  keep_choices-cache :
      (now : ℕ) (key : Text) (r : Result Resolution Failure) (sh : Shared P)
      → (keep_choices now key r sh).0.cache ≡ sh.cache
  unfolding keep_choices
  keep_choices-cache now key (err e) sh = refl
  keep_choices-cache now key (ok r) sh = refl

  module _ (s : Search P) where
    search_now-bounded :
        (key query : Text) (sh : Shared P)
        → length sh.autocomplete ≤ 500
        → (length (search_now s key query sh).0.autocomplete ≤ 500)
          × ((search_now s key query sh).0.cache ≡ sh.cache)
    unfolding search_now
    search_now-bounded key query sh h =
        let r = (resolve s.urls s.answers s.config.limits query 10 10).1 in
        elim (Bool-cases s.second_permit) [
          | inl e ↦ rw e (keep_choices-bounded s.now key r sh h, keep_choices-cache s.now key r sh)
          | inr e ↦ rw e (h, refl)
        ]

    look_up-bounded :
        (key query : Text) (sh : Shared P)
        → length sh.autocomplete ≤ 500
        → (length (look_up s key query sh).0.autocomplete ≤ 500)
          × ((look_up s key query sh).0.cache ≡ sh.cache)
    unfolding look_up
    look_up-bounded key query sh h = of_entry (find_entry key sh.autocomplete)
      where
        recent :
            (b : Bool) (e : Entry)
            → (length (if b then (sh, e.choices) else search_now s key query sh).0.autocomplete
                ≤ 500)
              × ((if b then (sh, e.choices) else search_now s key query sh).0.cache ≡ sh.cache)
        recent true e = (h, refl)
        recent false e = search_now-bounded key query sh h

        found : Option Entry → Shared P × List Choice
        found o = elim o [
          | none ↦ search_now s key query sh
          | some e ↦ if is_recent s.now e then (sh, e.choices) else search_now s key query sh
        ]

        of_entry :
            (o : Option Entry)
            → (length (found o).0.autocomplete ≤ 500) × ((found o).0.cache ≡ sh.cache)
        of_entry none = search_now-bounded key query sh h
        of_entry (some e) = recent (is_recent s.now e) e

    choices_for-Answered :
        (id caller : ℕ) (query : Text) (sh : Shared P)
        → length sh.autocomplete ≤ 500
        → Answered s id caller (choices_for s id caller query sh)
    unfolding choices_for
    choices_for-Answered id caller query sh h = of_channel (admitted s id caller sh.cache) refl
      where
        looked : (channel : ℕ) → Shared P × List Choice
        looked channel = look_up s (cache_key s id channel query) query sh

        of_channel :
            (o : Option ℕ)
            → admitted s id caller sh.cache ≡ o
            → Answered s id caller (elim o [ none ↦ (sh, []) | some channel ↦ looked channel ])
        of_channel none e = record { bounded = h; allowed = inl refl }
        of_channel (some channel) e =
            let (bounded, cache) = look_up-bounded (cache_key s id channel query) query sh h in
            record {
              bounded = bounded;
              allowed = inr (channel, ap (admitted s id caller) cache ∙ e);
            }

    if-Answered :
        {id caller : ℕ} (b : Bool) (x y : Shared P × List Choice)
        → Answered s id caller x
        → Answered s id caller y
        → Answered s id caller (if b then x else y)
    if-Answered true x y h k = h
    if-Answered false x y h k = k

    -- Whatever the membership and the two attempts for a place turn out to be: a cache of at most
    -- 500 entries has at most 500 after it, and choices, remembered or new, are only for a caller
    -- who may add to the queue of the guild at the end, in the channel where the bot may join.
    pub autocomplete_choices-Answered :
        (id : ℕ) (r : Request) (sh : Shared P)
        → length sh.autocomplete ≤ 500
        → Answered s id (user r) (autocomplete_choices s (some id) r sh)
    unfolding autocomplete_choices
    autocomplete_choices-Answered id r sh h =
        let query : Text = trim (option r (codes "request")) in
        let (cache, known) = ensure_bot_membership s.membership id sh.cache in
        if-Answered (not (is_searchable s query)) _ _ (record { bounded = h; allowed = inl refl })
          (if-Answered (not (needs_membership id (user r) sh.cache)) _ _
            (choices_for-Answered id (user r) query sh h)
            (if-Answered (not s.first_permit) _ _ (record { bounded = h; allowed = inl refl })
              (if-Answered known _ _
                (choices_for-Answered id (user r) query (record sh { cache = cache }) h)
                (record { bounded = h; allowed = inl refl }))))
