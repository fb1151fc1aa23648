-- ===== src/Transport/Recording.antt =====
-- A transport with a record of the messages that it has sent with success. The record is a part of
-- the proofs: the transport below does what it does without it.
use tx2_link.Common.{List, [], ◌∷◌, ◌++◌}
use tx2_link.Error.{Result, ok, err}
use tx2_link.Protocol.{Message}
use tx2_link.Transport.{Transport}

-- The transport after a call of `send`, and the record.
abbrev pub recorded_after :
    {T : Type 0} → Message → Result (Unit {0}) × T → List Message → T × List Message
recorded_after m (ok u, t) ms = (t, ms ++ m ∷ [])
recorded_after m (err e, t) ms = (t, ms)

abbrev pub recording : {T : Type 0} → Transport T → Transport (T × List Message)
recording transport = record {
  send = λ m t. let p = transport.send m t.0 in (p.0, recorded_after m p t.1);
  receive = λ t. let (r, t') = transport.receive t.0 in (r, (t', t.1));
  close = λ t. let (r, t') = transport.close t.0 in (r, (t', t.1));
  is_connected = λ t. transport.is_connected t.0;
}
