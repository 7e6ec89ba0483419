-- ===== src/Voice/Reports.antt =====
-- The guild that `Cache::update` reports (src/voice.rs).
use raydio.Prelude.{
  ℕ, false, Option, none, some, ◌≡◌, ◌≢◌, refl, ap, arith, Map, get, get-insert, get-delete,
  get-modify, Option-cases, inl, inr,
}
use raydio.Voice.{
  Guild, Cache, Voice, Server, Event, member, voice, new_guild, change, change_listed, update,
}

module _ {P : Type 0} where
  -- The facts of a guild that a session takes from its voice handshake and its listeners.
  abbrev pub facts : Option (Guild P) → Option (Map Voice × Option Server)
  facts none = none
  facts (some g) = some (g.voices, g.server)

  change-other :
      (c : Cache P) (id j : ℕ) (f : Guild P → Guild P)
      → id ≢ j
      → get j (change c id f).guilds ≡ get j c.guilds
  unfolding change
  change-other c id j f ne = ground (arith, get-modify id j f c.guilds)

  facts-change :
      (c : Cache P) (id j : ℕ) (f : Guild P → Guild P)
      → ((g : Guild P) → facts (some (f g)) ≡ facts (some g))
      → facts (get j (change c id f).guilds) ≡ facts (get j c.guilds)
  unfolding change
  facts-change c id j f h = elim (Option-cases (get j c.guilds)) [
    | inl e ↦ ground (arith, get-modify id j f c.guilds)
    | inr (g, e) ↦ ground (arith, get-modify id j f c.guilds, h g)
  ]

  facts-change_listed :
      (c : Cache P) (id : Option ℕ) (j : ℕ) (f : Guild P → Guild P)
      → ((g : Guild P) → facts (some (f g)) ≡ facts (some g))
      → facts (get j (change_listed c id f).guilds) ≡ facts (get j c.guilds)
  unfolding change_listed
  facts-change_listed c none j f h = refl
  facts-change_listed c (some id) j f h = facts-change c id j f h

  -- An event changes the voice entries and the voice server of no guild but the one that `update`
  -- reports, and neither adds nor removes another guild.
  pub facts-update :
      (bot : ℕ) (c : Cache P) (e : Event P) (j : ℕ)
      → (update bot c e).1 ≢ some j
      → facts (get j (update bot c e).0.guilds) ≡ facts (get j c.guilds)
  unfolding update member
  facts-update bot c Event.ready j h = refl
  facts-update bot c Event.resumed j h = refl
  facts-update bot c Event.gateway_close j h = refl
  facts-update bot c (Event.guild_available g) j h =
      ground (arith, get-insert g.id j (new_guild g bot) c.guilds)
  facts-update bot c (Event.guild_unavailable id) j h = facts-change c id j _ (λ g. refl)
  facts-update bot c (Event.guild_delete id unavailable) j h = ground (
    arith,
    facts-change c id j (λ (g : Guild P). record g { available = false }) (λ g. refl),
    get-delete id j c.guilds,
  )
  facts-update bot c (Event.guild_update id owner) j h = facts-change c id j _ (λ g. refl)
  facts-update bot c (Event.channel_create guild ch) j h =
      facts-change_listed c guild j _ (λ g. refl)
  facts-update bot c (Event.channel_update guild ch) j h =
      facts-change_listed c guild j _ (λ g. refl)
  facts-update bot c (Event.channel_delete guild ch) j h =
      facts-change_listed c guild j _ (λ g. refl)
  facts-update bot c (Event.role_create id role p) j h = facts-change c id j _ (λ g. refl)
  facts-update bot c (Event.role_update id role p) j h = facts-change c id j _ (λ g. refl)
  facts-update bot c (Event.role_delete id role) j h = facts-change c id j _ (λ g. refl)
  facts-update bot c (Event.member_update id m) j h =
      ground (arith, facts-change c id j (λ (g : Guild P). member g m) (λ g. refl))
  facts-update bot c (Event.voice_state_update s) j h = elim (Option-cases s.guild_id) [
    | inl e ↦ ground arith
    | inr (id, e) ↦ ground (arith, change-other c id j (λ (g : Guild P). voice bot g s))
  ]
  facts-update bot c (Event.voice_server_update id endpoint token) j h =
      ap facts (change-other c id j _ (λ e. h (ap some e)))
  facts-update bot c Event.other j h = refl
