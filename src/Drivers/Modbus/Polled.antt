-- ===== src/Drivers/Modbus/Polled.antt =====
-- What a poll of crates/infrastructure/src/drivers/modbus.rs asks for, and what it returns.
use mathlib.Core.Option
use ifascada.Prelude.{
  ℕ, ◌≡◌, refl, ap, ◌∙◌, Option, none, some, List, [], ◌∷◌, map, arith, Option-cases,
}
use ifascada.Domain.Tag.{Tag}
use ifascada.Drivers.Modbus.{ModbusDeviceDriver}
use ifascada.Drivers.Modbus.Lines.{
  Request, reads, Context, Line, set_slave, register, register_addr, count, register_type, read_tag,
  read_tags, poll,
}

after : Option Request → List Request → List Request
after none sent = sent
after (some r) sent = r ∷ sent

module _ {F : Type 0} where
  -- The request for a tag, if its register is given and its type is known.
  wanted : ℕ → Tag F → Option Request
  wanted slave t = elim (register_addr t) [
    | none ↦ none
    | some a ↦ Option.map (λ k. reads k slave a (count t)) (register (register_type t))
  ]

  -- The requests for the tags, sent one after the other.
  unfoldable pub asked : ℕ → List (Tag F) → List Request → List Request
  unfolding wanted after
  asked slave [] sent = sent
  asked slave (t ∷ tags) sent = asked slave tags (after (wanted slave t) sent)

  read_tag-asked :
      (l : Line) (t : Tag F) (c : Context)
      → (read_tag l t c).0 ≡ record { slave = c.slave; sent = after (wanted c.slave t) c.sent }
  unfolding read_tag wanted after
  read_tag-asked l t c =
      ground (arith, Option-cases (register_addr t), Option-cases (register (register_type t)))

  read_tags-asked :
      (l : Line) (tags : List (Tag F)) (c : Context)
      → ((read_tags l tags c).0 ≡ record { slave = c.slave; sent = asked c.slave tags c.sent })
        × (map (λ r. r.0) (read_tags l tags c).1 ≡ map (λ t. t.id) tags)
  unfolding read_tags asked
  read_tags-asked l [] c = (refl, refl)
  read_tags-asked l (t ∷ tags) c =
      let h = read_tags-asked l tags (read_tag l t c).0 in
      (
        h.0
            ∙ ap (λ d. record { slave = d.slave; sent = asked d.slave tags d.sent })
                (read_tag-asked l t c),
        ap (λ ids. t.id ∷ ids) h.1,
      )

  -- A poll sends, in the order of the tags, one request for each tag whose register is given and whose register type is known, all to the slave of the device whatever slave the context was set to, and returns one result for each tag, in the order of the tags.
  pub poll-asked :
      (l : Line) (x : ModbusDeviceDriver F) (c : Context)
      → ((poll l x c).0
          ≡ record { slave = x.config.slave_id; sent = asked x.config.slave_id x.tags c.sent })
        × (map (λ r. r.0) (poll l x c).1 ≡ map (λ t. t.id) x.tags)
  unfolding poll
  poll-asked l x c = read_tags-asked l x.tags (set_slave x.config.slave_id c)
