-- ===== src/Core/Json/Texts.antt =====
-- A JSON library for the tests: its values are texts that have no fields.
use embedded_agent.Base.{Bytes}
use embedded_agent.Core.Error.{returned}
use embedded_agent.Core.Json.{JsonLib}

abbrev pub text_json : JsonLib
text_json = record {
  Json = Bytes;
  dump = λ j. j;
  value_string = λ j key fallback. returned fallback;
  size = λ j. 1;
  to_string = λ j. returned j;
  of_string = λ j. j;
}
