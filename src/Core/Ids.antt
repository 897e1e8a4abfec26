-- ===== src/Core/Ids.antt =====
-- src/llmmaxxing/core/ids.py: identifiers. A typed id is a fixed prefix with a body of fixed length
-- over lower-case hexadecimal digits (and dashes at fixed places), and the program only compares
-- ids of one type, by `==` and by the order of their texts. The number that the body spells
-- carries both, so an id stands here for that number.
use llmmaxxing.Base.{ℕ}

abbrev pub AccountId : Type 0
AccountId = ℕ

abbrev pub RequestId : Type 0
RequestId = ℕ

abbrev pub AttemptId : Type 0
AttemptId = ℕ

abbrev pub ProbeToken : Type 0
ProbeToken = ℕ

abbrev pub RouteGroupId : Type 0
RouteGroupId = ℕ

abbrev pub RouteLegId : Type 0
RouteLegId = ℕ

abbrev pub PolicyRevisionId : Type 0
PolicyRevisionId = ℕ

abbrev pub DeploymentGenerationId : Type 0
DeploymentGenerationId = ℕ

abbrev pub BundleHash : Type 0
BundleHash = ℕ

-- A client key's id: 32 hexadecimal digits.
abbrev pub KeyId : Type 0
KeyId = ℕ

-- A SHA-256 digest in hexadecimal.
abbrev pub Digest : Type 0
Digest = ℕ
