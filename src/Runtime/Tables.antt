-- ===== src/Runtime/Tables.antt =====
-- The bounds of the tables and tasks of `run` in src/runtime.rs.
use raydio.Prelude.{
  ℕ, ◌+◌, ◌≤◌, ◌≡◌, refl, sym, ap, ◌∙◌, Bool, true, false, codes, not, ◌&&◌, some, [], ◌∷◌, ◌++◌,
  Text, arith, leb, if◌then◌else◌, length, length-append, Map, get, insert, contains_key, any, ◌==◌,
  Option-cases, Bool-cases, inl, inr,
}
use raydio.Prelude.Keys.{
  keys, IsUnique, IsUnique-snoc, any-keys, keys-insert_old, keys-insert_new, all_values,
  all_values-insert, length-keys,
}
use raydio.Discord.{Request, new}
use raydio.Voice.{max_guilds}
use raydio.Runtime.{
  Runtime, Arrival, InteractionKind, Message, Mailbox, autocompletes, is_denied, not_loaded,
  acknowledges, interacts, mailbox_limit, no_messages, try_send, reject, loaded, Job, spawn,
  ensure_session, deliver, route, interact,
}

abbrev pub is_fitting : Mailbox → Bool
is_fitting b = leb (length b.messages) mailbox_limit

-- A mailbox holds at most 128 messages; there is exactly one session task for each guild of the
-- table, and at most 1000; at most 128 answers and 16 rejections are under way.
pub record IsValid {P : Type 0} (rt : Runtime P) : Type 0 where
  pub own_actors : keys rt.guilds ≡ rt.actors
  pub one_each : IsUnique rt.actors
  pub sessions_bounded : length rt.actors ≤ 1000
  pub mailboxes_bounded : all_values is_fitting rt.guilds ≡ true
  pub jobs_bounded : length rt.jobs ≤ 128
  pub rejections_bounded : length rt.rejections ≤ 16

pub try_send-fitting : (m : Message) (b c : Mailbox) → try_send m b ≡ some c → is_fitting c ≡ true
unfolding try_send
try_send-fitting m b c h = ground (arith, length-append b.messages (m ∷ []))

get-contains : {V : Type 0} (k : ℕ) (m : Map V) (v : V) → get k m ≡ some v → contains_key k m ≡ true
get-contains k m v h = ground arith

module _ {P : Type 0} where
  -- Only the mailboxes change.
  pub table-IsValid :
      (m : Map Mailbox) (rt : Runtime P)
      → keys m ≡ keys rt.guilds
      → all_values is_fitting m ≡ true
      → IsValid rt
      → IsValid (record rt { guilds = m })
  table-IsValid m rt e a v = record {
    own_actors = e ∙ v.own_actors;
    one_each = v.one_each;
    sessions_bounded = v.sessions_bounded;
    mailboxes_bounded = a;
    jobs_bounded = v.jobs_bounded;
    rejections_bounded = v.rejections_bounded;
  }

  -- A message for one session.
  pub sent-IsValid :
      (m : Message) (id : ℕ) (b c : Mailbox) (rt : Runtime P)
      → get id rt.guilds ≡ some b
      → try_send m b ≡ some c
      → IsValid rt
      → IsValid (record rt { guilds = insert id c rt.guilds })
  sent-IsValid m id b c rt g t v =
      table-IsValid (insert id c rt.guilds) rt
        (keys-insert_old id c rt.guilds (get-contains id rt.guilds b g))
        (all_values-insert is_fitting id c rt.guilds (try_send-fitting m b c t) v.mailboxes_bounded)
        v

  reject-IsValid :
      (id : ℕ) (reason : Text) (rt : Runtime P) → IsValid rt → IsValid (reject id reason rt)
  unfolding reject
  reject-IsValid id reason rt v = record {
    own_actors = v.own_actors;
    one_each = v.one_each;
    sessions_bounded = v.sessions_bounded;
    mailboxes_bounded = v.mailboxes_bounded;
    jobs_bounded = v.jobs_bounded;
    rejections_bounded =
        ground (arith, v.rejections_bounded, length-append rt.rejections ((id, reason) ∷ []));
  }

  spawn-IsValid :
      (j : Job) (rt : Runtime P) → length rt.jobs + 1 ≤ 128 → IsValid rt → IsValid (spawn j rt)
  spawn-IsValid j rt h v = record {
    own_actors = v.own_actors;
    one_each = v.one_each;
    sessions_bounded = v.sessions_bounded;
    mailboxes_bounded = v.mailboxes_bounded;
    jobs_bounded = omega (arith, length-append rt.jobs (j ∷ []), h);
    rejections_bounded = v.rejections_bounded;
  }

  new_session-IsValid :
      (guild : ℕ) (rt : Runtime P)
      → contains_key guild rt.guilds ≡ false
      → length rt.guilds + 1 ≤ 1000
      → IsValid rt
      → IsValid (record rt {
        guilds = insert guild no_messages rt.guilds;
        actors = rt.actors ++ guild ∷ [];
      })
  new_session-IsValid guild rt absent room v = record {
    own_actors =
        keys-insert_new guild no_messages rt.guilds absent
        ∙ ap (λ ks. ks ++ guild ∷ []) v.own_actors;
    one_each =
        IsUnique-snoc guild rt.actors
          (ap (any (λ j. j == guild)) (sym v.own_actors) ∙ any-keys guild rt.guilds ∙ absent)
          v.one_each;
    sessions_bounded = omega (
      arith,
      length-append rt.actors (guild ∷ []),
      length-keys rt.guilds,
      ap length v.own_actors,
      room,
    );
    mailboxes_bounded =
        all_values-insert is_fitting guild no_messages rt.guilds refl v.mailboxes_bounded;
    jobs_bounded = v.jobs_bounded;
    rejections_bounded = v.rejections_bounded;
  }

  ensure_session-IsValid :
      (guild : ℕ) (rt : Runtime P)
      → (not (contains_key guild rt.guilds) && leb max_guilds (length rt.guilds)) ≡ false
      → IsValid rt
      → IsValid (ensure_session guild rt)
  unfolding ensure_session
  ensure_session-IsValid guild rt h v = elim (Bool-cases (contains_key guild rt.guilds)) [
    | inl e ↦ rw e v
    | inr e ↦ rw e (new_session-IsValid guild rt e (ground (arith, h, e)) v)
  ]

  jobs_same :
      (guild : ℕ) (rt : Runtime P)
      → length rt.jobs + 1 ≤ 128
      → length (ensure_session guild rt).jobs + 1 ≤ 128
  unfolding ensure_session
  jobs_same guild rt h = ground (arith, h)

  deliver-IsValid :
      (guild : ℕ) (r : Request) (rt : Runtime P)
      → length rt.jobs + 1 ≤ 128
      → IsValid rt
      → IsValid (deliver guild r rt)
  unfolding deliver
  deliver-IsValid guild r rt room v = elim (Option-cases (get guild rt.guilds)) [
    | inl e ↦ ground (arith, e, v)
    | inr (b, e) ↦ elim (Option-cases (try_send (interacts r) b)) [
      | inl t ↦ ground (
        arith,
        e,
        t,
        reject-IsValid r.interaction.id
            (codes "Raydio is busy in this server. Please try again in a moment.") rt v,
      )
      | inr (c, t) ↦ ground (
        arith,
        e,
        t,
        spawn-IsValid (acknowledges r.interaction.id)
            (record rt { guilds = insert guild c rt.guilds }) room
            (sent-IsValid (interacts r) guild b c rt e t v),
      )
    ]
  ]

  pub if-IsValid :
      (b : Bool) (x y : Runtime P)
      → (b ≡ true → IsValid x)
      → (b ≡ false → IsValid y)
      → IsValid (if b then x else y)
  if-IsValid true x y h k = h refl
  if-IsValid false x y h k = k refl

  module _ (manages : P → Bool) where
    route-IsValid :
        (guild : ℕ) (a : Arrival P) (r : Request) (rt : Runtime P)
        → length rt.jobs + 1 ≤ 128
        → IsValid rt
        → IsValid (route manages guild a r rt)
    unfolding route
    route-IsValid guild a r rt room v =
        if-IsValid (is_denied manages a r) _ _ (λ _. reject-IsValid a.interaction.id _ rt v)
          (λ _.
            if-IsValid (not (loaded guild rt.cache)) _ _
              (λ _. reject-IsValid a.interaction.id _ rt v)
              (λ _.
                if-IsValid (not (contains_key guild rt.guilds) && leb max_guilds (length rt.guilds))
                  _ _ (λ _. reject-IsValid a.interaction.id _ rt v)
                  (λ e.
                    deliver-IsValid guild r (ensure_session guild rt) (jobs_same guild rt room)
                      (ensure_session-IsValid guild rt e v))))

    pub interact-IsValid :
        (a : Arrival P) (rt : Runtime P) → IsValid rt → IsValid (interact manages a rt)
    unfolding interact
    interact-IsValid a rt v = elim (Option-cases a.guild) [
      | inl e ↦ ground (arith, e, reject-IsValid a.interaction.id not_loaded rt v)
      | inr (guild, e) ↦ rw e (
          if-IsValid (leb 128 (length rt.jobs)) _ _ (λ _. reject-IsValid a.interaction.id _ rt v)
            (λ l. of_kind guild a.kind (ground (arith, l))))
    ]
      where
        of_kind :
            (guild : ℕ) (k : InteractionKind)
            → length rt.jobs + 1 ≤ 128
            → IsValid (elim k [
              | InteractionKind.autocomplete ↦ spawn (autocompletes a.interaction.id) rt
              | InteractionKind.other_kind ↦ rt
              | _ ↦ route manages guild a (new a.interaction) rt
            ])
        of_kind guild InteractionKind.autocomplete room = spawn-IsValid _ rt room v
        of_kind guild InteractionKind.other_kind room = v
        of_kind guild InteractionKind.command room =
            route-IsValid guild a (new a.interaction) rt room v
        of_kind guild InteractionKind.component room =
            route-IsValid guild a (new a.interaction) rt room v
