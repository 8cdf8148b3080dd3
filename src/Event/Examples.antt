-- ===== src/Event/Examples.antt =====
-- The text of events at concrete inputs.
use mini_dynamo.Base.{refl, arith, [], ◌∷◌}
use mini_dynamo.Event.{EventType, MemberEvent}
use mini_dynamo.Event.Wire.RoundTrip.{IsSendable}

-- A join with an address, and a death without one.
abbrev joined : MemberEvent
joined = record {
  type = EventType.join;
  node_id = 110 ∷ [];
  host = 104 ∷ [];
  port = 5000;
  incarnation = 0;
}

abbrev died : MemberEvent
died = record { type = EventType.dead; node_id = 110 ∷ []; host = []; port = 0; incarnation = 3 }

joined-IsSendable : IsSendable joined
joined-IsSendable = record {
  known = refl;
  no_semicolon = ground arith;
  id_no_colon = (ground arith, tt);
  id_no_semicolon = (ground arith, tt);
  host_no_colon = (ground arith, tt);
  host_no_semicolon = (ground arith, tt);
  port_fits = omega arith;
  incarnation_fits = omega arith;
}

died-IsSendable : IsSendable died
died-IsSendable = record {
  known = refl;
  no_semicolon = ground arith;
  id_no_colon = (ground arith, tt);
  id_no_semicolon = (ground arith, tt);
  host_no_colon = tt;
  host_no_semicolon = tt;
  port_fits = omega arith;
  incarnation_fits = omega arith;
}
