-- ===== src/Engines/StartCmd/Examples.antt =====
-- Launch commands of an SGLang and of a llama.cpp server.
use local_engine_router.Common.{◌≡◌, refl, [], ◌∷◌, none}
use local_engine_router.Engines.StartCmd.{served_ids_from_start_cmd, words, partition}
use local_engine_router.Engines.StartCmd.RoundTrip.{
  served, model, model_joined, other, short, long, all_ids, served_ids_from_start_cmd-command,
}

sglang :
    served_ids_from_start_cmd
      (λ s. none)
      (λ s. [])
      (words (
        "python" ∷ "-m" ∷ "sglang.launch_server" ∷ "--model-path" ∷ "/x" ∷ "--served-model-name"
        ∷ "a" ∷ "b" ∷ "--port" ∷ "8000" ∷ []))
    ≡ "/x" ∷ "a" ∷ "b" ∷ []
unfolding served_ids_from_start_cmd
sglang = refl

llama :
    served_ids_from_start_cmd
      (λ s. none)
      (λ s. [])
      (words ("llama-server" ∷ "-m" ∷ "/m/My-Model.GGUF" ∷ []))
    ≡ "/m/My-Model.GGUF" ∷ "My-Model" ∷ []
unfolding served_ids_from_start_cmd
llama = refl

served_ids_from_start_cmd-command_example :
    served_ids_from_start_cmd
      (λ s. none)
      (λ s. [])
      (words (
        "python" ∷ "-m" ∷ "sglang.launch_server" ∷ "--port" ∷ "8000" ∷ "--model=/x"
        ∷ "--served-model-name" ∷ "a" ∷ "b" ∷ []))
    ≡ all_ids [] (
        model short "sglang.launch_server"
        ∷ other "--port" ("8000" ∷ [])
        ∷ model_joined long "/x"
        ∷ served ("a" ∷ "b" ∷ [])
        ∷ [])
unfolding partition
served_ids_from_start_cmd-command_example =
    served_ids_from_start_cmd-command (λ s. none) (λ s. []) ("python" ∷ [])
      (model short "sglang.launch_server"
        ∷ other "--port" ("8000" ∷ [])
        ∷ model_joined long "/x"
        ∷ served ("a" ∷ "b" ∷ [])
        ∷ [])
      (refl, tt) (refl, ((refl, (refl, (refl, tt))), (tt, ((refl, (refl, tt)), tt))))
