-- ===== src/AgentRoot/Examples.antt =====
-- src/identity_digit.c: the root of Digit.
