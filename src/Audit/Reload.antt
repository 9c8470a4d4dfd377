-- ===== src/Audit/Reload.antt =====
-- `save` and `load`: what a reloaded chain is worth, and that saving loses nothing.
use text.Mathlib.Text.{◌==◌ as str_eq}
use proof_ops.Common.{
  String, ◌≡◌, refl, inl, inr, Bool, true, false, ◌&&◌, Option, none, some, List, [], ◌∷◌, map,
  arith, all, eq_iff, is_blank, Bool-cases, Result, ok, err,
}
use proof_ops.Audit.Event.{AuditEvent, Codec, is_event}
use proof_ops.Audit.Chain.{AuditChain, AuditError, is_file_id}
use proof_ops.Audit.Verify.{
  verify, LineCodec, save, load, load_lines, load_event, checked_chain, prepend,
}

module _ (codec : Codec) (lines : LineCodec) where
  -- What `load` asks of each event.
  unfoldable pub is_owned_event : String → AuditEvent → Bool
  is_owned_event owner e = is_event codec e && str_eq e.incident_id owner

  load_event_owned :
      (owner : String) (o : Option AuditEvent) {e : AuditEvent}
      → load_event codec lines owner o ≡ ok e
      → is_owned_event owner e ≡ true
  unfolding load_event is_owned_event
  load_event_owned owner none h = cc
  load_event_owned owner (some x) h = ground (arith, eq_iff x.incident_id owner)

  prepend_owned :
      (owner : String) (r : Result AuditError AuditEvent)
      (rest : Result AuditError (List AuditEvent)) (es : List AuditEvent)
      → ((e : AuditEvent) → r ≡ ok e → is_owned_event owner e ≡ true)
      → ((ds : List AuditEvent) → rest ≡ ok ds → all (is_owned_event owner) ds ≡ true)
      → prepend codec lines r rest ≡ ok es
      → all (is_owned_event owner) es ≡ true
  prepend_owned owner (err x) rest es p q h = cc
  prepend_owned owner (ok e) (err x) es p q h = cc
  prepend_owned owner (ok e) (ok ds) es p q h = ground (arith, p e refl, q ds refl)

  load_lines_owned :
      (owner : String) (file : List String) (es : List AuditEvent)
      → load_lines codec lines owner file ≡ ok es
      → all (is_owned_event owner) es ≡ true
  unfolding load_lines
  load_lines_owned owner [] es h = ground arith
  load_lines_owned owner (l ∷ ls) es h = elim (Bool-cases (is_blank l)) [
    | inl b ↦ load_lines_owned owner ls es (rw b at h)
    | inr n ↦
        prepend_owned owner (load_event codec lines owner (lines.loads l))
          (load_lines codec lines owner ls) es (λ e k. load_event_owned owner (lines.loads l) k)
          (λ ds k. load_lines_owned owner ls ds k) (rw n at h)
  ]

  checked :
      (owner : String) (r : Result AuditError (List AuditEvent)) {chain : AuditChain}
      → checked_chain codec lines owner r ≡ ok chain
      → (r ≡ ok chain.events) × (chain.incident_id ≡ owner) × ((verify codec chain).valid ≡ true)
  unfolding checked_chain
  checked owner (err x) h = cc
  checked owner (ok es) h = ground arith

  -- A chain that `load` returns verifies, belongs to the incident asked for, and holds only events
  -- that pass the contract and carry that incident's id.
  pub load_verified :
      (owner : String) (file : List String) {chain : AuditChain}
      → load codec lines owner file ≡ ok chain
      → (chain.incident_id ≡ owner)
        × ((verify codec chain).valid ≡ true)
        × (all (is_owned_event owner) chain.events ≡ true)
  unfolding load
  load_verified owner file {chain} h = elim (Bool-cases (is_file_id owner)) [
    | inl b ↦
        let (k, o, v) = checked owner (load_lines codec lines owner file) (rw b at h) in
        (o, v, load_lines_owned owner file chain.events k)
    | inr n ↦ absurd (no_load n h)
  ]
    where
      no_load : is_file_id owner ≡ false → load codec lines owner file ≡ ok chain → ⊥
      no_load n h = ground arith

  -- The line of an event is read back as that event, and is no blank line.
  pub record IsLine (e : AuditEvent) : Type 0 where
    pub read_back : lines.loads (lines.dumps e) ≡ some e
    pub shown : is_blank (lines.dumps e) ≡ false

  abbrev pub AreLines : List AuditEvent → Type 0
  AreLines [] = Unit
  AreLines (e ∷ es) = IsLine e × AreLines es

  load_dumps :
      (owner : String) (es : List AuditEvent)
      → AreLines es
      → all (is_owned_event owner) es ≡ true
      → load_lines codec lines owner (map lines.dumps es) ≡ ok es
  unfolding load_lines load_event is_owned_event
  load_dumps owner [] w h = refl
  load_dumps owner (e ∷ es) (l, w) h =
      rw (l.shown, l.read_back) (ground (arith, load_dumps owner es w))

  -- Saving loses nothing: a chain with a safe file id that verifies and whose events pass the
  -- contract is saved, and loading what was saved gives the chain back.
  pub load-save :
      (chain : AuditChain)
      → AreLines chain.events
      → is_file_id chain.incident_id ≡ true
      → (verify codec chain).valid ≡ true
      → all (is_owned_event chain.incident_id) chain.events ≡ true
      → (file : List String) × (save codec lines chain ≡ ok file)
        × (load codec lines chain.incident_id file ≡ ok chain)
  unfolding save load checked_chain
  load-save chain w i v o = (
    map lines.dumps chain.events,
    rw i refl,
    rw (i, load_dumps chain.incident_id chain.events w o) (rw v refl),
  )
