-- ===== src/Mqtt/Reader/Tests.antt =====
-- Inputs on which the theorems about the readers are run.
