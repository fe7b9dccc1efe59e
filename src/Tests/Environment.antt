-- ===== src/Tests/Environment.antt =====
-- The environment of a unit and the group traffic on small inputs.
use wkbench.Base.{
  ℕ, ◌+◌, pos, Bool, true, Option, none, some, List, [], ◌∷◌, Result, ok, Text, text, text_eq, Dict,
  lookup, ◌≡◌, ◌≢◌, refl, inr, ◌↔◌,
}
use wkbench.Contract.{ArtifactDef}
use wkbench.Kernel.Refs.{ResourceRef}
use wkbench.Kernel.Topo.{GraphNode}
use wkbench.Kernel.Outputs.{OutputStore, set}
use wkbench.Kernel.Env.{input, set-input}
use wkbench.Units.Ports.{GroupChannel, SendAck}
use wkbench.Units.GroupSend.{sender_of}
use wkbench.Units.GroupSend.Rotation.{sender_of-same}

abbrev source : ResourceRef
source = record { unit = text "b"; port = text "out" }

abbrev other_source : ResourceRef
other_source = record { unit = text "b"; port = text "more" }

abbrev node : GraphNode Bool Bool
node = record {
  name = text "a";
  dsl = record { use_kind = text "k"; inputs = []; after = []; spec = none };
  unit = true;
  def = record {
    kind = text "k";
    title = [];
    description = [];
    inputs = [];
    outputs = [];
    metrics = [];
    artifacts = [];
  };
  bindings = (text "in", source) ∷ (text "more", other_source) ∷ [];
  after = [];
}

bound : lookup (text "in") node.bindings ≡ some source
unfolding lookup text_eq
bound = refl

bound_more : lookup (text "more") node.bindings ≡ some other_source
unfolding lookup text_eq
bound_more = refl

other_port : other_source.port ≢ source.port
other_port = λ e. absurd (cc)

abbrev full : OutputStore ℕ
full = record { values = (text "b", (text "out", 1) ∷ (text "more", 3) ∷ []) ∷ [] }

set-input_example :
    (input {A = ℕ} (λ v. v) (set full source.unit source.port 5) node (text "in") ≡ ok 5)
    × ((input {A = ℕ} (λ v. v) (set full source.unit source.port 5) node (text "more") ≡ ok 3)
        ↔ (input {A = ℕ} (λ v. v) full node (text "more") ≡ ok 3))
set-input_example =
    set-input (λ v. v) full node (text "in") source 5 node (text "more") other_source 3 bound
      bound_more (inr other_port)

abbrev create : Text → Text → Text → ℕ → Result Text Text × ℕ
create dir unit name w = (ok name, w + 1)

abbrev declared : Dict ArtifactDef
declared =
    (text "raw.json", record { name = text "raw.json"; content_type = text "application/json" })
    ∷ []

abbrev channels : List GroupChannel
channels =
    record { channel_id = text "g0"; members = text "u0" ∷ text "u1" ∷ [] }
    ∷ record { channel_id = text "g1"; members = text "u2" ∷ text "u3" ∷ [] }
    ∷ []

abbrev answer : Text → Text → ℕ → Option (Result Text SendAck) × ℕ
answer channel uid w =
    (some (ok (record { message_id = pos w; message_seq = w; wire_latency = pos 0 })), w + 1)

sender_of-same_example :
    sender_of channels (text "round_robin") 1 ≡ sender_of channels (text "round_robin") 3
sender_of-same_example =
    sender_of-same channels (text "round_robin")
      (record { channel_id = text "g1"; members = text "u2" ∷ text "u3" ∷ [] }) 1 1 3 refl refl refl
