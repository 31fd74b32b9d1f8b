-- ===== src/Manager/Seats.antt =====
-- The mock of the seat service in cloud-backend/pkg/sandboxruntime/seats.go.
use cloudeagent.Prelude.{List, [], ◌∷◌, Text, codes}
use cloudeagent.Types.{Outcome, ok, ModelConfig}

pub record MockSeats : Type 0 where
  pub model : Text
  pub provider : Text
  pub base_url : Text
  pub api_key : Text
  pub models : List Text

abbrev pub new_mock_seats : MockSeats
new_mock_seats = record {
  model = codes "mock-gpt-4o";
  provider = codes "seat-service";
  base_url = codes "mock://";
  api_key = codes "sk-local-mock-seat";
  models = codes "mock-gpt-4o" ∷ codes "mock-claude-sonnet" ∷ [];
}

unfoldable pub resolve : MockSeats → Text → Outcome ModelConfig
resolve m user_id = ok (record {
  base_url = m.base_url;
  api_key = m.api_key;
  model = m.model;
  models = m.models;
  provider = m.provider;
})
