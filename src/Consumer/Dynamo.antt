-- ===== src/Consumer/Dynamo.antt =====
-- cmd/sfn-execution-events-consumer/main.go with store/dynamodb/: the consumer on the store in
-- DynamoDB, which is the one that it is built with.
use workflow_manager.WfUpdater.Events
