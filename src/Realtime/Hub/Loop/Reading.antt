-- ===== src/Realtime/Hub/Loop/Reading.antt =====
-- The write loop of a client takes a payload out of its channel.
use go_microservices_chat.Prelude.{
  ℕ, String, ◌≡◌, refl, sym, ap, ◌∙◌, List, ◌∷◌, arith, eqb, length, All-weaken, inl, inr,
  Bool-cases,
}
use go_microservices_chat.Realtime.Hub.{Channel, Client, set}
use go_microservices_chat.Realtime.Hub.Tidy.{set-Holds}
use go_microservices_chat.Realtime.Hub.Loop.{Loop, with_buffer}
use go_microservices_chat.Realtime.Hub.Loop.Fresh.{IsFresh}
use go_microservices_chat.Realtime.Hub.Loop.Ordered.{IsOrdered}

-- taking a payload out of a channel opens or closes none
written_closed :
    (channels : ℕ → Channel) (k j : ℕ) (rest : List String)
    → (set channels k (record (channels k) { buffer = rest }) j).closed ≡ (channels j).closed
written_closed channels k j rest = elim (Bool-cases (eqb j k)) [
  | inl e ↦ let same : j ≡ k = ground arith in rw e (ap (λ x. (channels x).closed) (sym same))
  | inr e ↦ rw e refl
]

module _ (clients : ℕ → Client) where
  pub with_buffer-IsOrdered :
      (n : ℕ) (l : Loop) (k : ℕ) (b : String) (rest : List String)
      → (l.hub.channels k).buffer ≡ b ∷ rest
      → IsOrdered clients n l
      → IsOrdered clients n (with_buffer l k rest)
  with_buffer-IsOrdered n l k b rest e i =
      let keeps : (j : ℕ) → IsFresh clients l.hub j → IsFresh clients (with_buffer l k rest).hub j =
        λ j f. record {
          opened = written_closed l.hub.channels k j rest ∙ f.opened;
          absent = f.absent;
        } in
      record {
        sound = record {
          valid = record {
            subscribed = λ room subs found.
                All-weaken (λ j s. (s.0, written_closed l.hub.channels k j rest ∙ s.1)) subs
                  (i.sound.valid.subscribed room subs found);
          };
          tidy = record {
            apart = i.sound.tidy.apart;
            holds =
                set-Holds l.hub.channels k (record (l.hub.channels k) { buffer = rest })
                  (omega (arith, i.sound.tidy.holds k, ap length e)) i.sound.tidy.holds;
          };
          fresh = All-weaken keeps l.register i.sound.fresh;
          apart = i.sound.apart;
          registers_fit = i.sound.registers_fit;
          unregisters_fit = i.sound.unregisters_fit;
          broadcasts_fit = i.sound.broadcasts_fit;
        };
        later = λ j le. keeps j (i.later j le);
        earlier = i.earlier;
      }
