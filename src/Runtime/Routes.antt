-- ===== src/Runtime/Routes.antt =====
-- What happens to an interaction in src/runtime.rs.
use raydio.Prelude.{
  ℕ, ◌<◌, ◌≡◌, ◌⊎◌, ◌≢◌, refl, sym, ap, ◌∙◌, Bool, true, false, not, ◌&&◌, Option, none, some, [],
  ◌∷◌, ◌++◌, Text, arith, leb, if◌then◌else◌, length, get, insert, contains_key, get-insert, inl,
  inr, Bool-cases, Option-cases, text_eq, text_eq_refl, text_eq→≡,
}
use raydio.Discord.{Request, Interaction, InteractionData, new}
use raydio.Voice.{max_guilds}
use raydio.Runtime.{
  Runtime, Arrival, InteractionKind, autocomplete, command, component, other_kind, interacts,
  Mailbox, try_send, reject, loaded, is_denied, not_loaded, no_messages, acknowledges,
  autocompletes, spawn, ensure_session, deliver, route, interact,
}
use raydio.Runtime.Outcomes.{
  busy, busy_here, denied, at_capacity, diagnostics, is_for_session, mailbox_of, has_room,
  IsPermitted, IsDenied, IsLoaded, IsUnloaded, Admitted, Refused, nowhere, overloaded, unpermitted,
  unknown, full_table, full_mailbox, Delivered, Rejected, Handled, passed_over, completes, refused,
  delivered,
}

new_keeps : (i : Interaction) → (new i).interaction ≡ i
unfolding new
new_keeps i = of_data i.interaction_data refl
  where
    of_data : (o : Option InteractionData) → i.interaction_data ≡ o → (new i).interaction ≡ i
    of_data none e = ground (arith, e)
    of_data (some (InteractionData.application_command name os)) e = ground (arith, e)
    of_data (some (InteractionData.message_component id)) e = ground (arith, e)
    of_data (some InteractionData.other_data) e = ground (arith, e)

try_send_room :
    (r : Request) (b : Mailbox)
    → has_room b ≡ true
    → try_send (interacts r) b ≡ some (record b { messages = b.messages ++ interacts r ∷ [] })
unfolding try_send
try_send_room r b h = rw h refl

try_send_full : (r : Request) (b : Mailbox) → has_room b ≡ false → try_send (interacts r) b ≡ none
unfolding try_send
try_send_full r b h = rw h refl

differs : {s t : Text} → s ≡ t → text_eq s t ≢ false
differs {s} {t} e h = let same : text_eq s s ≡ true = text_eq_refl s in cc

module _ {P : Type 0} where
  -- The session that is there after `ensure_session`.
  ensured :
      (guild : ℕ) (rt : Runtime P)
      → get guild (ensure_session guild rt).guilds ≡ some (mailbox_of guild rt)
  unfolding ensure_session
  ensured guild rt = elim (Option-cases (get guild rt.guilds)) [
    | inl e ↦ ground (arith, e, get-insert guild guild no_messages rt.guilds)
    | inr (b, e) ↦ ground (arith, e)
  ]

  ensured_others :
      (guild j : ℕ) (rt : Runtime P)
      → j ≢ guild
      → get j (ensure_session guild rt).guilds ≡ get j rt.guilds
  unfolding ensure_session
  ensured_others guild j rt n = ground (arith, n, get-insert guild j no_messages rt.guilds)

  ensured_actors :
      (guild : ℕ) (rt : Runtime P)
      → (ensure_session guild rt).actors
        ≡ (if contains_key guild rt.guilds then rt.actors else rt.actors ++ guild ∷ [])
  unfolding ensure_session
  ensured_actors guild rt = ground arith

  ensured_kept :
      (guild : ℕ) (rt : Runtime P)
      → record (ensure_session guild rt) { guilds = rt.guilds; actors = rt.actors; jobs = rt.jobs }
        ≡ rt
  unfolding ensure_session
  ensured_kept guild rt = ground arith

  ensured_jobs : (guild : ℕ) (rt : Runtime P) → (ensure_session guild rt).jobs ≡ rt.jobs
  unfolding ensure_session
  ensured_jobs guild rt = ground arith

  -- A full mailbox was there before.
  full_before :
      (guild : ℕ) (rt : Runtime P)
      → has_room (mailbox_of guild rt) ≡ false
      → ensure_session guild rt ≡ rt
  unfolding ensure_session
  full_before guild rt h = elim (Option-cases (get guild rt.guilds)) [
    | inl e ↦ ground (arith, e, h)
    | inr (b, e) ↦ rw e refl
  ]

  has_capacity :
      (guild : ℕ) (rt : Runtime P)
      → (not (contains_key guild rt.guilds) && leb max_guilds (length rt.guilds)) ≡ false
      → (get guild rt.guilds ≢ none) ⊎ (length rt.guilds < max_guilds)
  has_capacity guild rt h = elim (Option-cases (get guild rt.guilds)) [
    | inl e ↦ inr (ground (arith, e, h))
    | inr (b, e) ↦ inl (λ n. let x : some b ≡ none = sym e ∙ n in cc)
  ]

  rejected : (id : ℕ) (reason : Text) (rt : Runtime P) → Rejected id reason rt (reject id reason rt)
  unfolding reject
  rejected id reason rt = record { counted = refl; sent = refl; kept = refl }

  loaded→IsLoaded : (guild : ℕ) (rt : Runtime P) → loaded guild rt.cache ≡ true → IsLoaded guild rt
  unfolding loaded
  loaded→IsLoaded guild rt h = elim (Option-cases (get guild rt.cache.guilds)) [
    | inl e ↦ ground (arith, e, h)
    | inr (g, e) ↦ (g, e, ground (arith, e, h))
  ]

  unloaded→IsUnloaded :
      (guild : ℕ) (rt : Runtime P) → loaded guild rt.cache ≡ false → IsUnloaded guild rt
  unfolding loaded
  unloaded→IsUnloaded guild rt h g e = ground (arith, e, h)

  module _ (manages : P → Bool) (a : Arrival P) where
    denied→IsDenied : is_denied manages a (new a.interaction) ≡ true → IsDenied manages a
    unfolding is_denied
    denied→IsDenied h = (
      text_eq→≡ (new a.interaction).name diagnostics (ground (arith, h)),
      λ p e. ground (arith, e, h),
    )

    permitted→IsPermitted : is_denied manages a (new a.interaction) ≡ false → IsPermitted manages a
    unfolding is_denied
    permitted→IsPermitted h = elim (Bool-cases (text_eq (new a.interaction).name diagnostics)) [
      | inr n ↦ inl (λ e. differs e n)
      | inl n ↦ elim (Option-cases a.permissions) [
        | inl e ↦ absurd (ground (arith, n, e, h))
        | inr (p, e) ↦ inr (p, e, ground (arith, n, e, h))
      ]
    ]

    if-Handled :
        {rt : Runtime P} (b : Bool) (x y : Runtime P)
        → (b ≡ true → Handled manages a rt x)
        → (b ≡ false → Handled manages a rt y)
        → Handled manages a rt (if b then x else y)
    if-Handled true x y h k = h refl
    if-Handled false x y h k = k refl

    refuse :
        (reason : Text) (rt : Runtime P)
        → Refused manages a rt reason
        → Handled manages a rt (reject a.interaction.id reason rt)
    refuse reason rt h = refused reason h (rejected a.interaction.id reason rt)

    -- The mailbox and the state after a delivery.
    abbrev extended : ℕ → Runtime P → Mailbox
    extended guild rt =
        let b = mailbox_of guild rt in
        record b { messages = b.messages ++ interacts (new a.interaction) ∷ [] }

    abbrev posted : ℕ → Runtime P → Runtime P
    posted guild rt =
        let qt = ensure_session guild rt in
        spawn (acknowledges a.interaction.id)
          (record qt { guilds = insert guild (extended guild rt) qt.guilds })

    posted-Delivered : (guild : ℕ) (rt : Runtime P) → Delivered a guild rt (posted guild rt)
    posted-Delivered guild rt =
        let qt = ensure_session guild rt in
        record {
          own = ground (arith, get-insert guild guild (extended guild rt) qt.guilds);
          others = λ j n. ground (
            arith,
            get-insert guild j (extended guild rt) qt.guilds,
            ensured_others guild j rt n,
            n,
          );
          actors = ensured_actors guild rt;
          jobs = ap (λ js. js ++ acknowledges a.interaction.id ∷ []) (ensured_jobs guild rt);
          kept = ensured_kept guild rt;
        }

    deliver-Handled :
        (guild : ℕ) (rt : Runtime P)
        → Admitted manages a rt guild
        → Handled manages a rt (deliver guild (new a.interaction) (ensure_session guild rt))
    unfolding deliver new
    deliver-Handled guild rt h = elim (Bool-cases (has_room (mailbox_of guild rt))) [
      | inl e ↦
          rw (ensured guild rt, deliver)
            (rw (try_send_room (new a.interaction) (mailbox_of guild rt) e)
              (rw (new_keeps a.interaction) (delivered guild h e (posted-Delivered guild rt))))
      | inr e ↦
          rw (ensured guild rt, deliver)
            (rw (try_send_full (new a.interaction) (mailbox_of guild rt) e) (
              rw (new_keeps a.interaction)
                (rw (full_before guild rt e) (refuse busy_here rt (full_mailbox guild h e)))))
    ]

    route-Handled :
        (guild : ℕ) (rt : Runtime P)
        → a.guild ≡ some guild
        → length rt.jobs < 128
        → is_for_session a.kind ≡ true
        → Handled manages a rt (route manages guild a (new a.interaction) rt)
    unfolding route
    route-Handled guild rt g j k =
        if-Handled (is_denied manages a (new a.interaction)) _ _
          (λ d. refuse denied rt (unpermitted guild g j k (denied→IsDenied d)))
          (λ d.
            if-Handled (not (loaded guild rt.cache)) _ _
              (λ l. refuse not_loaded rt (
                unknown guild g j k (permitted→IsPermitted d)
                  (unloaded→IsUnloaded guild rt (ground (arith, l)))))
              (λ l.
                let known = loaded→IsLoaded guild rt (ground (arith, l)) in
                if-Handled (not (contains_key guild rt.guilds) && leb max_guilds (length rt.guilds))
                  _ _
                  (λ c. refuse at_capacity rt (
                    full_table guild g j k (permitted→IsPermitted d) known (ground (arith, c))
                      (ground (arith, c))))
                  (λ c. deliver-Handled guild rt (record {
                    place = g;
                    answers = j;
                    kind = k;
                    permitted = permitted→IsPermitted d;
                    known = known;
                    capacity = has_capacity guild rt c;
                  }))))

    -- Every interaction ends in one of these ways, each under its conditions. Outside a guild, or
    -- with 128 answers or more under way, it is refused. An autocompletion starts one search, and an
    -- interaction that is neither that nor a command nor a component changes nothing. A command or
    -- component is refused if it is for diagnostics without the permission to manage the server, if
    -- the guild is not loaded, if the guild has no session and the table is full, or if the mailbox
    -- of the session is full or closed; otherwise it becomes the last message of its guild's
    -- mailbox, which keeps its other messages, one task acknowledges it, and a session task starts
    -- if the guild has no mailbox yet. A refusal is counted, and sent while fewer than 16 are under way.
    -- All else stays as it is.
    pub interact-Handled : (rt : Runtime P) → Handled manages a rt (interact manages a rt)
    unfolding interact
    interact-Handled rt = of_guild a.guild refl
      where
        of_kind :
            (guild : ℕ)
            → a.guild ≡ some guild
            → length rt.jobs < 128
            → (k : InteractionKind) → a.kind ≡ k
            → Handled manages a rt (elim k [
              | autocomplete ↦ spawn (autocompletes a.interaction.id) rt
              | other_kind ↦ rt
              | _ ↦ route manages guild a (new a.interaction) rt
            ])
        of_kind guild g j autocomplete e = completes guild g j e
        of_kind guild g j other_kind e = passed_over guild g j e
        of_kind guild g j command e = route-Handled guild rt g j (ap is_for_session e)
        of_kind guild g j component e = route-Handled guild rt g j (ap is_for_session e)

        of_guild :
            (o : Option ℕ)
            → a.guild ≡ o
            → Handled manages a rt (elim o [
              | none ↦ reject a.interaction.id not_loaded rt
              | some guild ↦
                  if leb 128 (length rt.jobs)
                  then reject a.interaction.id busy rt
                  else elim a.kind [
                    | autocomplete ↦ spawn (autocompletes a.interaction.id) rt
                    | other_kind ↦ rt
                    | _ ↦ route manages guild a (new a.interaction) rt
                  ]
            ])
        of_guild none e = refuse not_loaded rt (nowhere e)
        of_guild (some guild) e =
            if-Handled (leb 128 (length rt.jobs)) _ _
              (λ l. refuse busy rt (overloaded guild e (ground (arith, l))))
              (λ l. of_kind guild e (ground (arith, l)) a.kind refl)
