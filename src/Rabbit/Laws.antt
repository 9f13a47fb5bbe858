-- ===== src/Rabbit/Laws.antt =====
-- What is documented of the calls of amqplib, as hypotheses. A call fails and changes nothing but the
-- outside world, or succeeds; a message that is sent goes to the end of its queue, also where
-- `sendToQueue` answers that the buffer is full. The timer does not fail.
use nestjs_order_api.Base.{String, Bool, none, some, [], ◌∷◌, ◌++◌, ◌≡◌, refl}
use nestjs_order_api.Http.{ok, err, failure}
use nestjs_order_api.Prisma.{World, Action}
use nestjs_order_api.Prisma.Effects.{Oracle, reads, answered}
use nestjs_order_api.Rabbit.{Letter, to_creation, to_processing, to_completed, Broker}

abbrev pub posted : {E : Type 0} → Letter → World E → World E
posted (to_creation m) w = record w { creations = w.creations ++ m ∷ [] }
posted (to_processing m) w = record w { processing = w.processing ++ m ∷ [] }
posted (to_completed m) w = record w { completed = w.completed ++ m ∷ [] }

module _ {E : Type 0} (o : Oracle E) where
  -- A call that changes none of what the world keeps.
  abbrev pub calls : Action E (Unit {0})
  calls = answered o (λ _. reads (λ _. tt))

  abbrev pub sends : Letter → Action E Bool
  sends m w =
      let later = o.next w.env in
      elim (o.fault w.env) [
        | some e ↦ (err (failure e), record w { env = later })
        | none ↦ (ok (o.flushed w.env), record (posted m w) { env = later })
      ]

  abbrev pub passes_time : Action E (Unit {0})
  passes_time w = (ok tt, record w { env = o.next w.env })

  pub record IsBroker (b : Broker E) : Type 0 where
    pub connect_lem : (w : World E) → b.connect w ≡ calls w
    pub create_channel_lem : (w : World E) → b.create_channel w ≡ calls w
    pub assert_queue_lem : (queue : String) (w : World E) → b.assert_queue queue w ≡ calls w
    pub send_to_queue_lem : (m : Letter) (w : World E) → b.send_to_queue m w ≡ sends m w
    pub consume_lem : (queue : String) (w : World E) → b.consume queue w ≡ calls w
    pub close_channel_lem : (w : World E) → b.close_channel w ≡ calls w
    pub close_connection_lem : (w : World E) → b.close_connection w ≡ calls w
    pub delay_lem : (w : World E) → b.delay w ≡ passes_time w

  -- Such a broker is one function of the outside world.
  unfoldable pub documented_broker : Broker E
  documented_broker = record {
    connect = calls;
    create_channel = calls;
    assert_queue = λ queue. calls;
    send_to_queue = sends;
    consume = λ queue. calls;
    close_channel = calls;
    close_connection = calls;
    delay = passes_time;
  }

  pub documented-IsBroker : IsBroker documented_broker
  unfolding documented_broker
  documented-IsBroker = record {
    connect_lem = λ w. refl;
    create_channel_lem = λ w. refl;
    assert_queue_lem = λ queue w. refl;
    send_to_queue_lem = λ m w. refl;
    consume_lem = λ queue w. refl;
    close_channel_lem = λ w. refl;
    close_connection_lem = λ w. refl;
    delay_lem = λ w. refl;
  }

  pub IsBroker-eq : (b : Broker E) → IsBroker b → b ≡ documented_broker
  unfolding documented_broker
  IsBroker-eq b laws = λ i. record {
    connect = λ w. laws.connect_lem w i;
    create_channel = λ w. laws.create_channel_lem w i;
    assert_queue = λ queue w. laws.assert_queue_lem queue w i;
    send_to_queue = λ m w. laws.send_to_queue_lem m w i;
    consume = λ queue w. laws.consume_lem queue w i;
    close_channel = λ w. laws.close_channel_lem w i;
    close_connection = λ w. laws.close_connection_lem w i;
    delay = λ w. laws.delay_lem w i;
  }
