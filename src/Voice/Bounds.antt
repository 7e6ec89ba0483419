-- ===== src/Voice/Bounds.antt =====
-- What every gateway event keeps of the cache (src/voice.rs).
use raydio.Prelude.{
  ℕ, ◌≤◌, false, Option, none, some, List, [], ◌∷◌, ◌≡◌, refl, arith, length, Map, insert, delete,
  modify, length-insert_new, length-insert_old, length-delete, length-modify, Option-cases, inl,
  inr,
}
use raydio.Voice.{
  Guild, Cache, VoiceState, GuildPayload, Event, max_guilds, max_voice_members, place, member,
  voice, voices_of, voice_entry, new_guild, change, change_listed, update,
}

abbrev pub All {ℓ} : {A : Type ℓ} → (A → Type 0) → List A → Type 0
All Q [] = Unit {0}
All Q (x ∷ xs) = Q x × All Q xs

module _ {P : Type 0} where
  -- The voice entries of a guild stay within the bound.
  pub record IsBounded (g : Guild P) : Type 0 where
    pub voices_bounded : length g.voices ≤ max_voice_members

  place-IsBounded :
      (g : Guild P) (v : VoiceState) (bot : ℕ) → IsBounded g → IsBounded (place g v bot)
  unfolding place
  place-IsBounded g v bot h = elim (Option-cases v.channel_id) [
    | inl e ↦ ground (arith, length-delete v.user_id g.voices)
    | inr (channel, e) ↦ ground (
      arith,
      length-insert_new v.user_id (voice_entry g v bot channel) g.voices,
      length-insert_old v.user_id (voice_entry g v bot channel) g.voices,
    )
  ]

  voice-IsBounded :
      (bot : ℕ) (g : Guild P) (v : VoiceState) → IsBounded g → IsBounded (voice bot g v)
  unfolding voice member
  voice-IsBounded bot g v h = elim (Option-cases v.member) [
    | inl e ↦ ground (arith, place-IsBounded g v bot h)
    | inr (m, e) ↦
        ground (arith, place-IsBounded g v bot h, place-IsBounded (member g m) v bot (ground arith))
  ]

  voices_of-IsBounded :
      (bot : ℕ) (g : Guild P) (vs : List VoiceState) → IsBounded g → IsBounded (voices_of bot g vs)
  unfolding voices_of
  voices_of-IsBounded bot g [] h = h
  voices_of-IsBounded bot g (v ∷ vs) h =
      voices_of-IsBounded bot (voice bot g v) vs (voice-IsBounded bot g v h)

  new_guild-IsBounded : (g : GuildPayload P) (bot : ℕ) → IsBounded (new_guild g bot)
  unfolding new_guild
  new_guild-IsBounded g bot = voices_of-IsBounded bot _ g.voice_states (ground arith)

  -- The cache: at most 1000 guilds, each within its bound.
  pub record IsValid (c : Cache P) : Type 0 where
    pub guilds_bounded : length c.guilds ≤ max_guilds
    pub each : All (λ e. IsBounded e.1) c.guilds

  All-insert :
      (id : ℕ) (g : Guild P) (m : Map (Guild P))
      → IsBounded g
      → All (λ e. IsBounded e.1) m
      → All (λ e. IsBounded e.1) (insert id g m)
  unfolding insert
  All-insert id g [] h a = (h, tt)
  All-insert id g ((j, w) ∷ m) h a = ground (arith, All-insert id g m h a.1)

  All-delete :
      (id : ℕ) (m : Map (Guild P))
      → All (λ e. IsBounded e.1) m
      → All (λ e. IsBounded e.1) (delete id m)
  unfolding delete
  All-delete id [] a = tt
  All-delete id ((j, w) ∷ m) a = ground (arith, All-delete id m a.1)

  All-modify :
      (id : ℕ) (f : Guild P → Guild P) (m : Map (Guild P))
      → ((g : Guild P) → IsBounded g → IsBounded (f g))
      → All (λ e. IsBounded e.1) m
      → All (λ e. IsBounded e.1) (modify id f m)
  unfolding modify
  All-modify id f [] h a = tt
  All-modify id f ((j, w) ∷ m) h a = ground (arith, h w a.0, All-modify id f m h a.1)

  change-IsValid :
      (c : Cache P) (id : ℕ) (f : Guild P → Guild P)
      → ((g : Guild P) → IsBounded g → IsBounded (f g))
      → IsValid c
      → IsValid (change c id f)
  unfolding change
  change-IsValid c id f h v = record {
    guilds_bounded = omega (arith, length-modify id f c.guilds);
    each = All-modify id f c.guilds h v.each;
  }

  change_listed-IsValid :
      (c : Cache P) (id : Option ℕ) (f : Guild P → Guild P)
      → ((g : Guild P) → IsBounded g → IsBounded (f g))
      → IsValid c
      → IsValid (change_listed c id f)
  unfolding change_listed
  change_listed-IsValid c none f h v = v
  change_listed-IsValid c (some id) f h v = change-IsValid c id f h v

  same : {g h : Guild P} → h.voices ≡ g.voices → IsBounded g → IsBounded h
  same e b = ground arith

  pub update-IsValid :
      (bot : ℕ) (c : Cache P) (e : Event P) → IsValid c → IsValid (update bot c e).0
  unfolding update member
  update-IsValid bot c Event.ready v = record { guilds_bounded = v.guilds_bounded; each = v.each }
  update-IsValid bot c Event.resumed v = record { guilds_bounded = v.guilds_bounded; each = v.each }
  update-IsValid bot c Event.gateway_close v = record {
    guilds_bounded = v.guilds_bounded;
    each = v.each;
  }
  update-IsValid bot c (Event.guild_available g) v = ground (
    arith,
    length-insert_new g.id (new_guild g bot) c.guilds,
    length-insert_old g.id (new_guild g bot) c.guilds,
    All-insert g.id (new_guild g bot) c.guilds (new_guild-IsBounded g bot) v.each,
  )
  update-IsValid bot c (Event.guild_unavailable id) v = change-IsValid c id _ (λ g h. same refl h) v
  update-IsValid bot c (Event.guild_delete id unavailable) v = ground (
    arith,
    change-IsValid c id (λ (g : Guild P). record g { available = false }) (λ g h. same refl h) v,
    length-delete id c.guilds,
    All-delete id c.guilds v.each,
  )
  update-IsValid bot c (Event.guild_update id owner) v =
      change-IsValid c id _ (λ g h. same refl h) v
  update-IsValid bot c (Event.channel_create guild ch) v =
      change_listed-IsValid c guild _ (λ g h. same refl h) v
  update-IsValid bot c (Event.channel_update guild ch) v =
      change_listed-IsValid c guild _ (λ g h. same refl h) v
  update-IsValid bot c (Event.channel_delete guild ch) v =
      change_listed-IsValid c guild _ (λ g h. same refl h) v
  update-IsValid bot c (Event.role_create id role p) v =
      change-IsValid c id _ (λ g h. same refl h) v
  update-IsValid bot c (Event.role_update id role p) v =
      change-IsValid c id _ (λ g h. same refl h) v
  update-IsValid bot c (Event.role_delete id role) v = change-IsValid c id _ (λ g h. same refl h) v
  update-IsValid bot c (Event.member_update id m) v =
      ground (arith, change-IsValid c id (λ (g : Guild P). member g m) (λ g h. same refl h) v)
  update-IsValid bot c (Event.voice_state_update s) v = elim (Option-cases s.guild_id) [
    | inl e ↦ ground arith
    | inr (id, e) ↦ ground (
      arith,
      change-IsValid c id (λ (g : Guild P). voice bot g s) (λ g h. voice-IsBounded bot g s h) v,
    )
  ]
  update-IsValid bot c (Event.voice_server_update id endpoint token) v =
      change-IsValid c id _ (λ g h. same refl h) v
  update-IsValid bot c Event.other v = v

  -- The gateway events, one after the other.
  pub replay : ℕ → Cache P → List (Event P) → Cache P
  replay bot c [] = c
  replay bot c (e ∷ es) = replay bot (update bot c e).0 es

  -- From a cache within its bounds, any gateway events leave at most 1000 guilds, each with at most
  -- 10000 voice entries.
  pub replay-IsValid :
      (bot : ℕ) (c : Cache P) (es : List (Event P)) → IsValid c → IsValid (replay bot c es)
  unfolding replay
  replay-IsValid bot c [] v = v
  replay-IsValid bot c (e ∷ es) v =
      replay-IsValid bot (update bot c e).0 es (update-IsValid bot c e v)
